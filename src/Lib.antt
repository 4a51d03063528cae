-- ===== src/Lib.antt =====
-- Verification of the open data analysis server.
--
-- The program is a Go server in which an agent analyses data and writes a report. This library
-- models the parts of it that keep state.
--
-- - Common: conditionals, lists, texts, dictionaries (Go maps with string keys) and results
--   (Go's pairs of a value and an error) that the other modules share.
-- - Tools/Report (server/tools/report_state.go, report_blocks.go): the draft of a report, its
--   blocks and charts, and the evidence references. Tools/Report/Blocks is
--   `applyReportBlockMutation` with the operations under it, Tools/Report/Charts the chart
--   references of a text, Tools/Report/Scope the guards of a partial edit
--   (server/tools/report_guardrails.go), Tools/Report/Projection the text that a user sees of a
--   content, and Tools/Report/Finalize the issues of a draft and its finalization
--   (server/tools/report_finalize.go).
--   Tools/Report/ChartEdits and Tools/Report/Layout are `applyReportChartMutation` and
--   `applyReportLayoutMutation` (server/tools/report_charts.go, report_layout.go), and
--   Tools/Report/Ledger the ledgers of results and artifacts with the checks of stored ones.
-- - Session (server/session/types.go): Session/Runs is the active run as a state machine, and
--   Session/Snapshot is `LoadReportSnapshot`, and Session/Manager the live sessions with their owners
--   (server/session/manager.go), with the removal of expired ones (cleanup.go).
-- - Agent (server/agent): Agent/Jobs is the manager of background executions (jobs.go),
--   and Agent/ChildAgents the registry of delegated conversations (child_agents.go).
--   Agent/History is the repair of the pairs of tool calls and results, Agent/Compaction the
--   compaction of a history that has become too long (compaction.go, engine.go), and Agent/Rebuild
--   the fold of the stored messages of a session into a history (history_rebuild.go). Agent/Goals
--   is the tree of goals, with what keeps a run from ending, and Agent/Memory the working memory
--   (memory.go).
--   Agent/Approvals is the receipts of authorizations (engine.go): Agent/Approvals/Answers the answer
--   of the user, and Agent/Approvals/Traces the sessions in which receipts are used. Tools/Admission
--   is the decision whether a call may run (server/tools/admission.go).
--   Agent/Loop is the main loop (engine.go, parallel_tools.go, repeat_notice.go,
--   final_output_guard.go): Agent/Loop/Failures the counts of failures and repeats, Agent/Loop/Batch
--   the calls of a turn, and Agent/Loop/Turns the rounds of a run. Agent/Loop/Sequential has the
--   batch without overlap that the one of the code is compared with in Agent/Loop/InOrder, for tools
--   whose concurrency-safe calls do not change what other calls give.
-- - Render (server/render): Render/Slices the cuts of a captured page (layout.go), and Render/Cache
--   the cache of the slices (cache.go).
-- - Auth (server/auth): Auth/Revocation is the denylist of token ids (revocation.go), Auth/Store its
--   table (server/repository/sqlite/revoked_token_repo.go), Auth/Token the signed tokens (token.go),
--   and Auth/Access the checks before a handler (identity.go, rbac.go). Auth/Codec has functions
--   that stand for the MAC, base64 and JSON in the runs. Auth/Limits is the limits on requests and
--   the address that they count by (server/handler/ratelimit.go).
--
-- The parts interact through the report: the agent's tools change the draft within the edit scope
-- of the session, a finished run resets the scope, and a stored report that is loaded replaces
-- the draft and refreshes the scope's target. A compaction of the agent's history leaves a
-- checkpoint among the stored messages, which the fold replays after a restart. The token manager
-- asks its denylist, writes a revocation to the table, and a new manager loads the table.
-- The loop plans the calls of a turn with the decisions of the gates, which ask the receipts, runs
-- them, and repairs the pairs of calls and results when the run is over.
--
-- How the state corresponds: a Go struct is a record with the same fields, a Go map is an
-- association list that holds a key once, and a pointer that the code tests for nil is an Option
-- or left out where the caller never passes nil. Methods that change a struct return the new one;
-- those of a shared struct run under its mutex, so that an operation is one step. Error
-- values are constructors that stand for the messages. A text is a native string; where the code
-- turns it into runes the model has the list of their codes. An int that can be negative is ℤ, a
-- counter of type uint64 wraps around.
--
-- Bounds and fuel: `find_chart_references` and `project_from` recurse on the length of the text,
-- which every step shortens, and `project_report_content_text` and `chart_references` pass it. The
-- eviction of jobs recurses on the length of their order, which every pass shortens; the bound of
-- 32 jobs, that of 16 conversations, the 12 recent items of a history and the size of a style sheet
-- are those of the code. `turn_before` looks at 5 items at most, as the loop of the code does.
-- `cuts_from` has the height of a block and one, since every cut is below the one before.
-- `walk` and `branches` have the number of goals and one as fuel: every step of a walk sees a new
-- goal, and in a tree no branch is longer than the number of goals. `run_rounds` has the number of
-- rounds as fuel, and says whether the run has ended in them: with a limit of the deployment, one
-- round more than the limit is enough.
--
-- Not modelled: the database (but for the table of revoked tokens), the other HTTP handlers, the
-- model providers, HTML rendering and sanitizing, and the clients in other languages.
-- `html.UnescapeString`, what `jsoncontract.Decode` gives for a text, the MAC of a token, base64, the
-- parsing of addresses and the token buckets are parameters. So are, in the main loop, the model, the
-- execution of tools, which may depend on all that was executed before, and the assembly of the
-- prompt; a call that runs ahead of its turn has its result as soon as it is started, so that the time
-- it takes and the limit on how many overlap are left out.
pub mod Agent
pub mod Auth
pub mod Common
pub mod Render
pub mod Session
pub mod Tools
