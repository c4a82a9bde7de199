-- ===== src/CommandDiagnostic.antt =====
-- apps/desktop/web/lib/helpers.ts: `analyzeCommandExecutionState`, the card beside a command that
-- takes long. The two patterns are lists of the words that they look for.
pub mod Thresholds
use Prim.Native.String.{String}
use open_pi.Prelude.{
  ℕ, ◌+◌, Bool, true, false, not, ◌&&◌, ◌||◌, Option, none, some, List, [], ◌∷◌, ◌++◌, any,
  if◌then◌else◌, ◌==◌, ltb, leb, length, drop, is_some,
}
use open_pi.Text.{Text, units, is_space, trim_start}
use open_pi.Text.Tags.{starts_with_i, ascii_lower}
use open_pi.Text.Decimal.{show, is_digit}

-- `\w`
abbrev pub is_word : ℕ → Bool
is_word c = is_digit c || (leb 97 (ascii_lower c) && leb (ascii_lower c) 122) || c == b'_'

abbrev pub begins_with_word : Text → Bool
begins_with_word [] = false
begins_with_word (c ∷ s) = is_word c

-- `\s+`
abbrev pub skip_spaces : Text → Option Text
skip_spaces [] = none
skip_spaces (c ∷ s) = if is_space c then some (trim_start s) else none

-- the words one after the other, with space between, and the end of a word behind the last
unfoldable pub words_here : List Text → Text → Bool
words_here [] s = false
words_here (w ∷ []) s = starts_with_i s w && not (begins_with_word (drop (length w) s))
words_here (w ∷ v ∷ ws) s =
    let rest : Bool = elim (skip_spaces (drop (length w) s)) [
      | none ↦ false
      | some t ↦ words_here (v ∷ ws) t
    ] in
    starts_with_i s w && rest

-- one of the phrases stands at the start of some word; `inside` tells that a word goes on here
unfoldable pub has_phrase : List (List Text) → Bool → Text → Bool
has_phrase phrases inside [] = false
has_phrase phrases inside (c ∷ s) =
    let later = has_phrase phrases (is_word c) s in
    if not inside && any (λ ws. words_here ws (c ∷ s)) phrases then true else later

-- the phrases of a first word with each of the second ones
abbrev pub phrases_of : Text → List Text → List (List Text)
phrases_of w [] = []
phrases_of w (v ∷ vs) = (w ∷ v ∷ []) ∷ phrases_of w vs

abbrev pub build_phrases : List (List Text)
build_phrases =
    phrases_of (units "cargo") (units "build" ∷ units "check" ∷ units "clippy" ∷ units "run" ∷ [])
    ++ ((units "rustc" ∷ [])
        ∷ (units "mvn" ∷ [])
        ∷ (units "gradle" ∷ [])
        ∷ (units "cmake" ∷ [])
        ∷ (units "make" ∷ [])
        ∷ (units "tsc" ∷ [])
        ∷ (units "vite" ∷ units "build" ∷ [])
        ∷ (units "webpack" ∷ [])
        ∷ (units "next" ∷ units "build" ∷ [])
        ∷ (units "go" ∷ units "build" ∷ [])
        ∷ (units "swift" ∷ units "build" ∷ [])
        ∷ (units "bazel" ∷ units "build" ∷ [])
        ∷ (units "ninja" ∷ [])
        ∷ [])

abbrev pub install_phrases : List (List Text)
install_phrases =
    phrases_of (units "npm") (units "i" ∷ units "install" ∷ units "add" ∷ [])
    ++ (phrases_of (units "pnpm") (units "i" ∷ units "install" ∷ units "add" ∷ [])
        ++ (phrases_of (units "yarn") (units "add" ∷ units "install" ∷ [])
            ++ ((units "pip" ∷ units "install" ∷ [])
                ∷ (units "cargo" ∷ units "fetch" ∷ [])
                ∷ (units "go" ∷ units "mod" ∷ units "download" ∷ [])
                ∷ (units "git" ∷ units "clone" ∷ [])
                ∷ (units "docker" ∷ units "pull" ∷ [])
                ∷ (units "curl" ∷ [])
                ∷ (units "wget" ∷ [])
                ∷ [])))

pub record CommandDiagnostic : Type 0 where
  pub title : Text
  pub detail : Text
  pub suggestion : Option Text

-- `${text} (已耗时 ${elapsedSeconds}s)`
abbrev pub with_elapsed : Text → ℕ → Text
with_elapsed text elapsed_seconds = text ++ (units " (已耗时 " ++ (show elapsed_seconds ++ units "s)"))

unfoldable pub build_diagnostic : ℕ → CommandDiagnostic
build_diagnostic elapsed_seconds = record {
  title = with_elapsed (units "大型项目编译中") elapsed_seconds;
  detail = units "大型工程冷启动编译或跨模块构建可能需要数分钟。若长时间没有任何新的编译器输出，可检查依赖或随时终止。";
  suggestion = some (units "若怀疑编译卡死，可点击终止后分模块编译或检查目标缓存。");
}

unfoldable pub install_diagnostic : ℕ → CommandDiagnostic
install_diagnostic elapsed_seconds = record {
  title = with_elapsed (units "网络依赖下载耗时较长") elapsed_seconds;
  detail = units "依赖下载受当前网络带宽与源延迟影响。若长时间无输出，可能遇到镜像源连接超时。";
  suggestion = some (units "可检查网络或国内镜像源配置（如 npm registry / crates.io 镜像）。");
}

unfoldable pub long_diagnostic : ℕ → CommandDiagnostic
long_diagnostic elapsed_seconds = record {
  title = with_elapsed (units "命令持续运行中") elapsed_seconds;
  detail = units "该命令已运行超过 45 秒。智能体将在后台持续等待返回，您可以随时点击“终止执行”强行中断当前命令。";
  suggestion = some (units "若命令不需要继续运行，可点击“终止执行”。");
}

unfoldable pub analyze_command_execution_state : Text → ℕ → Option CommandDiagnostic
analyze_command_execution_state command_text elapsed_seconds =
    if has_phrase build_phrases false command_text && leb 90 elapsed_seconds
    then some (build_diagnostic elapsed_seconds)
    else if has_phrase install_phrases false command_text && leb 60 elapsed_seconds
    then some (install_diagnostic elapsed_seconds)
    else if leb 45 elapsed_seconds
    then some (long_diagnostic elapsed_seconds)
    else none
