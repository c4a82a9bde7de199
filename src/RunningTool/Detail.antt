-- ===== src/RunningTool/Detail.antt =====
-- `getRunningToolDetail` for arguments that arrive as a text.
use open_pi.Prelude.{◌≡◌, refl, Option, some}
use open_pi.Text.{Text}
use open_pi.JsValue.{JsValue, Fields, string, object}
use open_pi.RunningTool.{RunningTool, args_of, command_of, get_running_tool_detail}

args_of-string :
    (parse : Text → Option JsValue) (text : Text) (fs : Fields)
    → parse text ≡ some (object fs)
    → args_of parse (string text) ≡ some (object fs)
unfolding args_of
args_of-string parse text fs h = rw (h, args_of) refl

args_of-object :
    (parse : Text → Option JsValue) (fs : Fields) → args_of parse (object fs) ≡ some (object fs)
unfolding args_of
args_of-object parse fs = refl

-- A tool whose arguments are a text that `parse` reads as an object is described as one whose
-- arguments are that object.
pub get_running_tool_detail-string :
    (parse : Text → Option JsValue) (tool : RunningTool) (text : Text) (fs : Fields)
    → parse text ≡ some (object fs)
    → get_running_tool_detail parse (record tool { args = string text })
      ≡ get_running_tool_detail parse (record tool { args = object fs })
unfolding get_running_tool_detail command_of
get_running_tool_detail-string parse tool text fs h =
    rw (args_of-string parse text fs h, args_of-object parse fs) refl
