-- ===== src/ToolLabel.antt =====
-- apps/desktop/web/lib/turn-progress.ts: `TOOL_LABELS` and `toolLabel`, the words for a tool. The
-- names `constructor` and `__proto__`, for which the source's object gives what every object
-- inherits and no text, have no label here.
use open_pi.Prelude.{
  ℕ, ◌||◌, Option, none, some, List, [], ◌∷◌, ◌++◌, map, ◌==◌, if◌then◌else◌, or_else,
}
use open_pi.Text.{Text, units, text_eq, is_space, to_lower}

abbrev pub tool_labels : List (Text × Text)
tool_labels =
    (units "read", units "读取文件")
    ∷ (units "grep", units "搜索内容")
    ∷ (units "find", units "查找文件")
    ∷ (units "glob", units "匹配文件")
    ∷ (units "search", units "搜索")
    ∷ (units "bash", units "运行命令")
    ∷ (units "edit", units "编辑文件")
    ∷ (units "write", units "写入文件")
    ∷ (units "apply_patch", units "应用补丁")
    ∷ (units "subagent", units "调度子代理")
    ∷ (units "subagent_status", units "检查子代理状态")
    ∷ (units "subagent_stop", units "终止子代理")
    ∷ (units "subagent_risk", units "评估子代理风险")
    ∷ (units "browser", units "浏览器操作")
    ∷ (units "web_search", units "网络搜索")
    ∷ (units "web_fetch", units "获取网页")
    ∷ (units "task", units "任务规划")
    ∷ (units "mcp", units "调用 MCP")
    ∷ (units "mcp_script", units "执行 MCP 脚本")
    ∷ []

-- `TOOL_LABELS[name]`
unfoldable pub find_label : List (Text × Text) → Text → Option Text
find_label [] name = none
find_label ((key, label) ∷ labels) name =
    if text_eq key name then some label else find_label labels name

-- `.replace(/[-\s]/g, "_")`, unit by unit
abbrev pub underscored : ℕ → ℕ
underscored c = if c == b'-' || is_space c then b'_' else c

unfoldable pub tool_label : Text → Text
tool_label tool_name =
    or_else (find_label tool_labels (map underscored (to_lower tool_name)))
      (units "使用 " ++ tool_name)
