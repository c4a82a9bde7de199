-- ===== src/Lib.antt =====
-- OpenPI desktop: the pure logic of the web front end.
--
-- The desktop application shows conversations with coding agents. Its front end,
-- apps/desktop/web, draws what the agents' events and the desktop shell tell, and keeps the logic
-- that does not need a browser in apps/desktop/web/lib. This library models that logic, from these
-- files:
--
--   Diff          apps/desktop/web/lib/diff.ts. Diff/Detect: isDiffContent. Diff/Lines:
--                 parseDiffLines. Diff/Hunks: parseDiffHunks, whose hunks a reviewer accepts,
--                 rejects or edits. Diff/Apply: applyHunksToSource, which writes the hunks that are
--                 not rejected into a source text. Diff/SideBySide: buildSideBySideRows, the two
--                 columns of a hunk. Each loop is a function from its variables, a record, to the
--                 next ones, folded over the lines.
--   TurnProgress  apps/desktop/web/lib/turn-progress.ts. The progress of a turn is a state machine,
--                 reduceTurnProgress, over the events of all instances; its handlers, one for each
--                 kind of event, are in TurnProgress/Reduce, and turnVerb in
--                 TurnProgress/Reduce/Verb.
--   ToolLabel     toolLabel of the same file.
--   SmoothStream  apps/desktop/web/lib/smooth-stream.ts: nextStreamingTextOffset, how much of an
--                 answer the next frame shows while it streams in.
--   DraftStore    apps/desktop/web/lib/draft-store.ts: the class DraftStore, with its Map.
--   Messages      apps/desktop/web/lib/helpers.ts: mergeConversationMessage, which puts a message that
--                 arrives into the conversation, and assistantToolsHaveResults.
--   Repetition    detectRepetitionLoop of the same file, which stops an answer that repeats itself.
--   Thinking      thinkingLevelsForModel, isFlashTierModel and getHighestThinkingLevel of the same
--                 file: the levels of thinking of a model.
--                 Thinking/Models: modelSupportsReasoning and normalizeConversationModels.
--   Content       the content of a message, of the same file: contentText, contentImages,
--                 messageBlockCounts, messageReasoning, visibleMessageText and
--                 conversationContentMatches.
--   Attachments   apps/desktop/web/App.tsx: messageWithDocuments, which writes documents into the text of
--                 a message, where visibleMessageText takes them out.
--   DateGroups    groupConversationsByDate of helpers.ts.
--   Titles        instanceTitle and shortWorkspacePath of helpers.ts.
--   UiRequest     blockingConversationUiRequest of helpers.ts.
--   ToolPath, ToolCall, ToolAction, RunningTool
--                 cleanPath; toolCalls, toolCallSummary and toolCallIconName; formatActionItem and,
--                 in ToolAction/Trajectory, computeTrajectorySummary; getRunningToolDetail and
--                 getRunningToolOutput, of the same file.
--   CommandDiagnostic
--                 analyzeCommandExecutionState of the same file.
--   Documents     isTextDocumentFile, isDocumentFile and prepareDocumentAttachment of the same file.
--   Keybindings   apps/desktop/web/lib/keybindings.ts: matchKeybinding and handleKeybinding. The
--                 handlers of the caller are the ones that are given; what a listener does is the
--                 handler that it calls, with the prevention of the default.
--   Swarm         apps/desktop/web/lib/swarm-types.ts: extractSwarmFromMessages.
--   AgentOs       apps/desktop/web/lib/agent-os.ts: buildAgentActivity, buildCausalChain and
--                 actionCardPrompt. AgentOs/Api: the calls of the hook useAgentOS, with the back end as
--                 a state that each call changes.
--   Export        apps/desktop/web/lib/export-markdown.ts: formatMessageToMarkdown and
--                 generateExportFilename. Export/Conversation: formatConversationToMarkdown.
--   Markdown      apps/desktop/web/lib/markdown.tsx: splitBlocks, with its patterns in Markdown itself
--                 and its loop in Markdown/Blocks, and in Markdown/Inline renderInline, whose nodes are
--                 data instead of elements.
--   Recap         apps/desktop/web/lib/recap.ts. Recap/Choices, Recap/Steps and Recap/Milestone are the
--                 parts of extractRecapAndSuggestions, Recap/Extract puts them together and has
--                 extractLatestSuggestions.
--   Theme         apps/desktop/web/lib/theme-manager.ts: the themes; in Theme/World the storage, the
--                 document and the calls of the desktop as one state, with the functions and handlers, and
--                 the script of apps/desktop/web/index.html, which runs before them.
--   Supabase      apps/desktop/web/lib/supabase-client.ts: the class SupabaseClient. In
--                 Supabase/Requests each method that waits for the server is two functions, and the
--                 replies come in any order.
--   CloudSync     apps/desktop/web/lib/cloud-sync-bridge.ts: the timer and what the daemon is told.
--   MobileData    apps/desktop/web/mobile/mobile-data.ts: loadTranscript and listConversations.
--   FileLinks     apps/desktop/web/lib/file-links.ts: parseFileLink.
--   ViewRoute     apps/desktop/web/lib/view-route.ts: which view a hash or a stored name leads to.
--   Text          JavaScript strings as lists of UTF-16 code units, with the operations that these
--                 files call.
--   JsValue       JavaScript values of no declared type, as JSON has them, and in JsValue/Print what
--                 String and JSON.stringify write for them.
--   TextMap       a JavaScript Map with string keys, as its entries in order.
--   Prelude       the names, tests on numbers, and lemmas that all modules share.
--
-- Numbers. Line numbers, offsets, counters and times are natural numbers, and exact: the program's
-- numbers are exact below 2^53, and no text is that long. Where the program subtracts or divides,
-- the models write out what it does: Math.ceil as a division with the divisor less one added, and
-- Math.max(0, n - 1) as the subtraction that stops at zero. Fractions, negative numbers and NaN in the fields of an
-- event are not modelled.
--
-- Loops. All are by recursion on a list or on a number that counts the rounds down: the search for
-- the place of a hunk has 31 rounds, for the offsets from -15 to 15, and that for a repeated pattern
-- 29, for the lengths from 2 to 30, with 6 rounds each. The outer loop of
-- buildSideBySideRows has as many rounds as there are lines, which is enough because each takes at
-- least one; the theorem on its columns holds for the function with these rounds. The loop of splitBlocks
-- has as many rounds as there are lines, and those of renderInline and over the blocks of code of a
-- reply as many as there are units, which is enough because each takes at least one.
--
-- Texts. The pattern of a hunk header and that of a route are written as scanners, and show their
-- expressions in a comment. `toLowerCase` is exact where its result is compared with ASCII texts. A
-- field that can be absent is an Option; one of type unknown is a value of the type Value, which
-- tells numbers and strings from the rest.
--
-- Parameters. Dates, JSON.parse, the parsing of URLs, the reading and extraction of files, the calls of the back end and,
-- for names of files, toLowerCase are arguments of the definitions that use them.
--
-- Servers and waiting. A method that waits is split where it waits, and what it waits for is an
-- argument: the replies of Supabase, the rows that the phone reads, the result of a refresh. Events of a
-- window, a client or the bridge are data, and a run is a list of them in any order. Local storage is a
-- TextMap, or a field for the one value that is kept there, with a field that tells whether it accepts
-- what is written; in Theme/World there are two, for the two values that are written one after the other.
--
-- Not modelled: React components and styles, what is drawn for a block of Markdown, calls of the desktop
-- shell, the remote services themselves, image decoding and dates of the browser, the helpers for labels
-- and units of time in helpers.ts, tables of data, and the Rust crates.
pub mod Prelude
pub mod Text
pub mod ToolLabel
pub mod TurnProgress
pub mod SmoothStream
pub mod ViewRoute
pub mod JsValue
pub mod CloudSync
pub mod Content
pub mod UiRequest
pub mod ToolPath
pub mod ToolCall
pub mod ToolAction
pub mod RunningTool
pub mod CommandDiagnostic
pub mod Documents
pub mod Export
pub mod AgentOs
pub mod Supabase
pub mod Swarm
pub mod Keybindings
pub mod TextMap
pub mod Theme
pub mod Thinking
pub mod Recap
pub mod Repetition
pub mod Markdown
pub mod Messages
pub mod MobileData
pub mod DraftStore
pub mod Diff
pub mod DateGroups
pub mod Attachments
pub mod FileLinks
pub mod Titles
