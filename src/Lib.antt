-- ===== src/Lib.antt =====
-- The reading frontend of urwhaturead: the state and the pure functions of its hooks, with the
-- theorems that make them correct. Paths are from the root of the repository; hooks/ and lib/ stand
-- for frontend/src/hooks/ and frontend/src/lib/.
--
-- Parts and files:
--   Prelude            what the parts share: texts as UTF-16 units, the integers over the native
--                      numbers, stable sorting by a comparator, arrays with distinct keys, and
--                      `Host`, the functions of JavaScript and the browser that the code calls.
--   Task               frontend/src/lib/summary-task-utils.ts: the queue of AI summary tasks, with
--                      `upsertSummaryTaskState` as `upsert_summary_task_state`, and so on.
--   Task/Store         hooks/use-summary-task-actions.ts and use-summary-task-pruner.ts: the queue
--                      and the set of announced keys, with one function per operation.
--   Task/View          hooks/use-summary-task-view.ts: what is shown of the queue.
--   Task/Summary       the answers of the summary API, `formatAIStopReason`, and
--                      `resolveSummaryTaskIdentity` of hooks/use-summary-article-state.ts.
--   Task/Poller        hooks/use-summary-task-poller.ts: one poll, from the replies of the API to
--                      the queue, the shown summary and the notice.
--   Sanitize           frontend/src/lib/app-utils.ts: the sanitizer of article HTML.
--   Article            app-utils.ts and hooks/use-reader-local-persistence.ts: the stored lists of
--                      read and favourite articles.
--   Stream             hooks/use-reader-stream.ts: the list of articles with the briefing.
--   Session            hooks/use-reader-session-actions.ts: the reading session.
--   Session/Open       `openArticle` of hooks/use-reader-article-actions.ts, `loadCachedSummary`, the
--                      close button and the briefing, with their answers in any order.
--   Session/Summarize  `onSummarizeArticle`: asking for a summary, and its answer.
--   Feed               hooks/use-reader-data-controller.ts: loading pages of the feed, overlapping
--                      loads, and the check for new articles.
--   Sources            hooks/use-source-management-state.ts: the listed and the selected sources.
--   Briefing           hooks/use-feed-briefing-actions.ts: the generation of a briefing, with the 120
--                      rounds of its polling loop.
--   Panel              hooks/use-source-management-actions.ts: the handlers of the source panel, each
--                      an action on the panel's state that may throw, with the requests and the
--                      reloads that it makes recorded in their order (`onRunBulkSourceAction` as
--                      `on_run_bulk_source_action`, and so on).
--   Sidebar            hooks/use-reader-sidebar-state.ts: the sources and groups of the sidebar.
--   Sidebar/Controls   hooks/use-reader-sidebar-controls.ts, and Sidebar/Filters
--                      hooks/use-reader-filter-controls.ts: the handlers that change the filters, with
--                      the loads that they start recorded in their order.
--   Briefing/Restore   hooks/use-feed-briefing-cache-restore.ts: a stored or cached briefing; and
--                      Briefing/Derived use-feed-briefing-derived.ts: the scope of a briefing.
--   CatchUp            hooks/use-reader-catch-up.ts: the count of new articles and its checkpoint, with
--                      a step relation for overlapping calls in CatchUp/Races.
--   Access             hooks/use-admin-access.ts, use-app-tab-actions.ts, use-reader-view-actions.ts: who
--                      may manage the sources, the tabs and the view.
--   Keyboard           hooks/use-reader-keyboard-shortcuts.ts, use-reader-overlay-shortcuts.ts and
--                      use-source-context-menu.ts: what a key does, and the place of the menu.
--   Keyboard/Walk      the keys with the stream and the reader: what repeated presses open.
--   Library            hooks/use-ai-library-section.ts: the stored summaries and briefings, with a step
--                      relation for overlapping reads and loads in Library/Races.
--
-- The poller and the reader act on the same queue and the same summary fields: the store of
-- Task/Store is part of the state of Task/Poller. A hook's state is a record, a handler is a
-- function on it, and an asynchronous handler is cut at its awaits into functions that are given
-- what the call holds; Session/Open/Steps and Feed/Loading have step relations for all interleavings
-- of such calls. A generation in Briefing is run whole, by its replies.
--
-- Numbers: ids, counts and lengths are natural numbers, times are integers in milliseconds; none of
-- the code relies on rounding, and a scroll progress is a fraction. All loops are by recursion on
-- lists and trees, so no fuel is needed; the polling loop of Briefing has the bound of the source.
-- Deletion and addition on a set that is only asked for membership act on the list of its elements.
--
-- Not modelled: rendering and layout, the HTML parser and serializer, `new URL`, `Date.parse`,
-- `localeCompare` and `toLowerCase` (parameters), JSON text, timers, network calls (their answers are inputs), the Go
-- service, and the parts of the frontend that only pass properties on.
pub mod Prelude
pub mod Task
pub mod Sanitize
pub mod Article
pub mod Stream
pub mod Session
pub mod Access
pub mod Briefing
pub mod CatchUp
pub mod Feed
pub mod Keyboard
pub mod Library
pub mod Panel
pub mod Sidebar
pub mod Sources
