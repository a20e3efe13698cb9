-- ===== src/Lib.antt =====
-- Distill Portal, the inspection frontend (apps/frontend/src): from the backend's two lists of sessions
-- it builds one filtered, sorted and paged list, and from the raw text of a session a stream of
-- messages, with skim blocks over it.
--
-- The parts, and where they stand (paths under apps/frontend/src/features/sessions unless given):
--   Contracts               components/ui-api-contracts/bindings: the rows of the two backend lists
--   Sessions.Rows           types.ts: the unified row, isImportable
--   Sessions.Merge          mergeSessions.ts: the two passes of the join on (tool, source session id)
--   Sessions.FilterState    useSessionFilters.ts: the filters and their defaults; Codec is decodeFilters
--                           and what JSON.stringify is given, Setters the hook's setters and writes
--   Sessions.Filters        filterSessions.ts: applyFilters and applySort
--   Sessions.Projects       filterSessions.ts: distinctProjectPaths
--   Sessions.Pagination     applyPagination.ts
--   Sessions.Paging         App.tsx (from apps/frontend/src): the page index with its effects, and
--                           components/Pagination.tsx, the strip
--   Sessions.RelativeTime   relativeTime.ts
--   Json                    JSON values, and the run time that the parsers call
--   Parsers                 parsers/types.ts; Pushes and Lines hold what the two parsers share
--   Parsers.ClaudeCode      parsers/claude_code.ts
--   Parsers.Codex           parsers/codex.ts; Echo is resolveEchoBackPointers
--   Parsers.Skim            parsers/buildSkim.ts
--   Parsers.Dispatch        parsers/index.ts
--   Hints                   renderHints.ts: Messages is its first pass, Groups and Clusters the two after
--                           it, Failure is detectFailure, Metadata buildMetadataHint
--   ParsedHook              useParsedSession.ts: the shared cache, and the functions of one effect; Steps
--                           holds the consumers, and the events of theirs and of the fetches
--   Stream                  streamRawText.ts: the reading loop, over a list of reads
--   LastRescan              lastRescan.ts
--   RawPreview              rawPreview.ts: the reading loop, over a list of reads; Parts is about lines
--   SelectedSession         useSelectedSession.ts: the selection and its mirror in the page's address
--   Poll                    useOperationPoll.ts: the loop of one poll, over a list of answers, and the map
--                           of abort controllers; Live is about several polls
--   Toasts                  useToastQueue.ts
--   Feed                    features/operations/useOperationsFeed.ts (from apps/frontend/src): the hook's
--                           state and handlers; Steps holds the browser's events and when they can come
--   Api                     lib/api.ts (from apps/frontend/src): Paths has the paths and the query,
--                           Component is encodeURIComponent, Endpoints has the calls
--   Prelude                 texts, dictionaries, comparisons, a stable sort
--   Tests                   concrete inputs, and the theorems at them
--
-- The merged rows go through the filters, the sort and the pages, in that order. streamRawText
-- gives the text that dispatchParser parses, whose result useParsedSession caches, and a parser's
-- messages go to buildSkim and to renderHints. Function names are the source's in snake case:
-- mergeSessions is merge_sessions.
--
-- A string is its list of UTF-16 code units (Text). A JavaScript map is an association list in
-- insertion order. The arrays that a parser pushes to are the record Output, and what one line
-- pushes is a list of pushes that is applied to it. Array.prototype.sort is a stable insertion
-- sort, which agrees with every other stable sort under a total preorder. The functions recurse
-- on their lists; only `decimal` uses fuel, one more than the number, which has no more digits
-- than that. JSON.parse, JSON.stringify, Date.parse, toLowerCase, TextDecoder, fetch and the
-- browser's reading of an address are parameters, on which nothing is assumed but what a theorem
-- names. A JSON number is the bit pattern of its double; a page index is the case that the code
-- distinguishes (not finite, negative, or in [n, n + 1)).
--
-- In Feed, an abort controller is a number that is counted up, a timer is its delay, and a
-- request is answered by an event; a frame whose data does not parse is none. Any sequence of
-- events that the open source, the armed timers and the requests in flight allow is a run.
--
-- In ParsedHook, a promise and its abort controller are one number, and what a promise closes over
-- stands in a table of fetches. Consumers, answers, callbacks and rescans are events in any order; an
-- event that cannot happen changes nothing. A callback runs after its promise settles, and those that
-- have coalesced onto a fetch run after the callback of the consumer that started it.
--
-- In Sessions.Paging, the effects of a render run in their order, on the state that the ones before
-- them have set; the render that they ask for has the same filters and rows.
--
-- Not modelled: the React components but for the strip, App.tsx but for its page index, and the Rust
-- backend: rendering, and the wiring of what is modelled.
pub mod Api
pub mod Contracts
pub mod Feed
pub mod Hints
pub mod Json
pub mod LastRescan
pub mod ParsedHook
pub mod Parsers
pub mod Poll
pub mod Prelude
pub mod RawPreview
pub mod SelectedSession
pub mod Sessions
pub mod Stream
pub mod Tests
pub mod Toasts
