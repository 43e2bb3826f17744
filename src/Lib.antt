-- ===== src/Lib.antt =====
-- sonarr2: the release pipeline, the imports and the command system, modelled and verified.
--
-- THE PROGRAM. An RSS sync takes the releases that the indexers list, parses their titles, matches
-- them with monitored episodes of the library, has the decision engine accept or reject them, ranks
-- the accepted ones for each episode and hands the winner to a download client. The decision engine
-- reads quality profiles and definitions, custom format scores, the blocklist and the release
-- profiles. The sync, like every longer task, is a command: the scheduler puts the due tasks into a
-- queue in the database, and workers claim commands under a lease, run their handlers and record how
-- they end. What a client has downloaded, the importer moves into the library under a name that the
-- organizer builds. The event bus tells the other parts what has happened; the realtime broker hands
-- it on to the browsers. Housekeeping cleans the tables, and the file watcher notices changed folders.
--
-- THE FILES. A module declares the state and the operations of one part; its children prove what
-- they are named for.
--   Common              shared types, texts, lists, signed integers, the stable sort
--   Parser              internal/parser: types.go (Types), the patterns (Patterns), ParseQuality
--                       (Quality), ParseTitle with cleanTitle (Title)
--   Profiles            internal/profiles/quality.go: QualityDefinition, QualityProfile
--   Blocklist           internal/blocklist/blocklist.go: Matches (matches)
--   ReleaseProfile      internal/releaseprofile/releaseprofile.go: Match, termMatches
--   CustomFormats       internal/customformats: Match (match, match_spec), parseSizeRange, parseGB,
--                       Score (score)
--   DecisionEngine      internal/decisionengine: Evaluate (evaluate), Rank (rank), the ten specs of
--                       specs/ and the engine that internal/app/app.go composes (engine_specs)
--   Providers, Library  the records of internal/providers and internal/library that the pipeline
--                       reads, ListForSeries; Library.MonitorMode is ApplyMonitorMode
--   RssSync             internal/rsssync/rsssync.go: lookups and groups; RssSync.Handler is Handle
--   Grab                internal/grab/grab.go: Grab (grab) and the choice of a client
--   Organizer           internal/organizer: BuildFilename (build_filename), BuildSeasonFolder
--   Importer            internal/importer/import.go: moveFile (move_file) over a file system;
--                       Importer.Folder is ProcessFolder and importFile over the library's tables
--   Commands.Queue      internal/commands/queue_sqlite.go with its SQL statements: Enqueue, Claim,
--                       Complete, Fail, RefreshLease, SweepExpiredLeases, FindDuplicate,
--                       DeleteOldCompleted, Get, ListRecent; step is one call, run a history of calls
--   Commands.Worker     internal/commands/worker.go: run (run_worker), dispatch
--   Scheduler           internal/scheduler: tick, processDueTask, the task table
--   Events              internal/events: register, Publish, the goroutine pool
--   Realtime            internal/realtime/broker.go: Subscribe, Unsubscribe, Broadcast and the messages
--                       of the domain events; Realtime.Spec has histories of whole calls and what
--                       they shall show, Realtime.Interleaving the steps that interleave
--   Downloads           internal/commands/handlers/refresh_downloads.go: Handle (handle), which finds
--                       completed downloads and enqueues their import
--   RefreshSeries       internal/commands/handlers/refresh_series.go: Handle (handle), which takes a
--                       series' metadata over into the library
--   FsWatcher           internal/fswatcher/debouncer.go: Trigger, the timers and their goroutines
--   Tvdb                internal/providers/metadatasource/tvdb/ratelimit.go: RoundTrip (round_trip),
--                       backoffDelay and the defaults
--   Housekeeping        internal/housekeeping/housekeeping.go: Run (run) with its four tasks
--   AutoTag             internal/autotag/autotag.go: Matches, ApplyTags, RemoveTags
--   SceneMapping        internal/scenemapping/scenemapping.go: both lookups, normalize
--   DelayProfile        internal/delayprofile/delayprofile.go: ApplicableProfile, ProtocolDelay
--   RemotePathMapping   internal/remotepathmapping/remotepathmapping.go: Translate
--   Samples             tests of the models, and the theorems at concrete inputs
--
-- HOW THE MODEL CORRESPONDS TO THE CODE. State is passed explicitly: the command queue is the list of
-- its table's rows and the counter of ids, and each call is a function on it. A write takes how it
-- ends: committed, rolled back, or committed though the caller is given an error. Calls of several
-- workers interleave as a list of calls: the pool runs the writes one after the other on its one
-- writer, without a transaction around them, and a call of the queue is one such write. Time is a
-- natural number that each call is given. A worker's loop runs over the rounds that the environment
-- supplies, each with the claim's outcome, the handler's result and the queue calls made meanwhile;
-- a write under the cancelled context of a worker that is stopped is refused. A tick of the
-- scheduler and a run of a handler are sequential: FindDuplicate and Enqueue are separate calls in
-- the source, and no call of another worker is modelled between them.
-- Goroutines of the event bus are tasks in flight, and a schedule tells which of them finish before
-- each handler. The broker's clients and the debouncer's timers are numbers, and a step is one of the
-- moments between which other goroutines may run: a round of a broadcast, a half of Unsubscribe, the
-- end of a timer, the turn of its goroutine. The order in which Go walks a map is a parameter.
--
-- NUMBERS. Ids, times, seasons and episode numbers are natural numbers; sizes, scores and priorities
-- of clients are signed. They do not wrap around, so an overflow of 64-bit sums of scores is outside
-- the model; the delays of Tvdb wrap as in the source. Gigabytes in the size ranges are exact decimals
-- in place of Go's floats; from 2^63 bytes on, their conversion to an int64 gives the least one, as on
-- amd64. Loops are structural recursion, but for two on fuel: the collapse of double spaces in
-- cleanTitle has the length of the text, and the printing of a number has the number itself; both are
-- enough (Parser.Title.Cleaning, Organizer.Numbers), since each round takes away a space or a digit.
-- Texts are lists of ASCII codes.
--
-- PARAMETERS. Go's regexp (a pattern compiles to a test of texts, or fails; in the parser, find gives
-- the groups of a match), the floats of the quality definitions (a sign test and a conversion to
-- megabytes), filepath.Join, the answers of the operating system, the rate limiter of golang.org/x/time,
-- and what indexers, download clients and stores answer.
--
-- NOT MODELLED. HTTP, SignalR and SSE transports, the API, the providers' clients, the SQL of the
-- plain stores, authentication, backup, migration and the frontend: they move data and decide little.
-- The health checks, the chain of notifications and the rest of the stores are the next parts to
-- model. The Postgres variants of the stores are not modelled. A client of the broker that waits on a
-- channel without a buffer is not modelled either: there a message is always dropped. Nor is a move
-- whose source is the partial copy beside its destination: copyFile would empty it before it reads it.
pub mod Providers
pub mod Organizer
pub mod Importer
pub mod Grab
pub mod Events
pub mod DelayProfile
pub mod RemotePathMapping
pub mod Library
pub mod Realtime
pub mod FsWatcher
pub mod RefreshSeries
pub mod SceneMapping
pub mod Downloads
pub mod AutoTag
pub mod Housekeeping
pub mod Tvdb
pub mod RssSync
pub mod Common
pub mod Parser
pub mod Profiles
pub mod Blocklist
pub mod ReleaseProfile
pub mod DecisionEngine
pub mod CustomFormats
pub mod Commands
pub mod Scheduler
mod Samples
