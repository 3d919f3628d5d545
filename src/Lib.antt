-- ===== src/Lib.antt =====
-- wsaw watches web sites: it scans a target in a consent mode, stores the result, compares it with
-- the baseline of the target, scores how far the result can be trusted, and notifies. A scheduler
-- starts the scans and attempts failed ones again.
--
-- This library models the parts that decide what a scan says, the store's retention, which decides what
-- is kept of it, and the signed links that share it. Paths are from the repository's root.
--
-- Model (internal/model): the scan document and what is read off it.
--   Model/Enums.antt      the string types of result.go as data types, with their texts
--   Model/Request.antt    Request, CaptureFailure, NeverCompleted, Incomplete (result.go)
--   Model/Result.antt     Result, OK, Truncated, IncompleteRatio (result.go); the fields that no
--                         modelled code reads are left out
--   Model/Reasons.antt    TopIncompleteReason (result.go); Model/Reasons/Best.antt: proofs
--   Model/Confidence.antt the score document (confidence.go)
--   Model/Domains.antt    FirstPartyHosts and ThirdPartyDomains (result.go)
--   Model/Aggregate.antt  HostSummaries and CountsByResourceType (aggregate.go); proofs in
--                         Model/Aggregate/Sums.antt
-- Classify.antt (internal/classify/classify.go): registrable domains and parties;
--   proofs in Classify/Laws.antt.
-- Diff (internal/diff): the comparison of a scan with its baseline.
--   Diff/Change.antt      Change, Report, Severity and the queries of a report (diff.go)
--   Diff/Rules.antt       SeverityRules and its look-ups (rules.go)
--   Diff/HostList.antt    allow and deny lists (rules.go)
--   Diff/Maps.antt        the maps that the comparison builds of a scan: hosts, assets, cookies,
--                         storage, unobserved domains (diff.go)
--   Diff/Differ.antt      Options, the differ, incomparable, sortChanges, scriptIdentity (diff.go)
--   Diff/Effects.antt     the body of each loop, as the effect of one map entry (diff.go)
--   Diff/Compare.antt     the loops and Compare (diff.go)
--   Diff/Flap.antt        FlapSuppressor: Filter and Prune (flap.go)
--   Diff/Loops.antt       what a loop appends, for every order of the map; proofs
--   Diff/Order, Justified (with Bodies and Compare), Extends, Complete, Removed, Itself, Severity, Hosts,
--                         Rules/Layers, HostList/Laws, Flap/Laws, Flap/Prune: proofs, named for their subject
-- Confidence.antt (internal/confidence/confidence.go): Score and its four signals; proofs in
--   Confidence/Laws.antt and Confidence/Median.antt.
-- Retry.antt (internal/retry/retry.go): which results are retried, Delay and TotalDelay on int64
--   patterns; proofs in Retry/Laws.antt.
-- Schedule.antt (internal/daemon/schedule.go): one job and its schedule; the cron library is the
--   interface Cron. Proofs in Schedule/Spread.antt and Schedule/Laws.antt.
-- Limiter.antt (internal/daemon/schedule.go): originLimiter; proofs in Limiter/Laws.antt.
-- Daemon.antt (internal/daemon/daemon.go): what a check, a start, the end of a run and a reload do to
--   the job of one key, one function for each hold of the lock. Daemon/Steps.antt interleaves them;
--   Daemon/Spacing.antt and Daemon/Attempts.antt are proofs by induction on the steps.
-- Notify.antt (internal/notify/gate.go, scan.go): scan events, the confidence gate, and which scan-level
--   notifiers are told. Notify/Webhook.antt (notify.go): the events of changes, the filter of webhooks,
--   Publish, enqueue and who is delivered to. Proofs in Notify/Laws.antt.
-- Robots.antt (internal/robots/robots.go): Parse, groupFor, longestMatch, matchPattern, Allowed; proofs
--   in Robots/Laws.antt.
-- Share (internal/share/share.go): Share.antt has New, Mint, Verify and Allows, Share/Base64.antt the
--   encoding, Share/Split.antt the parts of a token. Share/Signed.antt and Share/Minted.antt: proofs.
-- Store (internal/store): retention, baselines and comparisons.
--   Store/Select.antt     Retention, Keep and selectKeep with its helpers (retention.go); proofs in
--                         Store/Select/Buckets, Periods, Kept, Filled, Series and Grows
--   Store/Index.antt      the tables and the statements about references and claims (references.go,
--                         claims.go); proofs in Store/Index/Rising and Store/Index/Above
--   Store/Collect.antt    collectDangling, collectOne, orphanedRefs (retention.go); proofs in
--                         Store/Collect/Pages, Keeps, Removes and Orphans
--   Store/Prune.antt      Prune and PlanPrune (retention.go); proofs in Store/Prune/Survives
--   Store/Refs.antt       validateRef (bucket.go)
--   Store/Baselines.antt  approvals, the audit log and the rows that comparisons select (baseline.go,
--                         store.go); proofs in Store/Baselines/Approved, History, Reads and Rows
--   Store/Comparison.antt ComparisonFor and Report (compare.go); proofs in Store/Comparison/Other and
--                         Store/Comparison/Explained
--   Store/Sweep.antt      Sweep and PlanSweep (retention.go); proofs in Store/Sweep/Keeps
-- Adhoc (internal/adhoc/adhoc.go): Adhoc.antt has Accept, Adhoc/Addresses.antt isPublic, Adhoc/Runes.antt
--   the runes of a text; url.Parse, net.ParseIP and the resolver are the record Net. Proofs in
--   Adhoc/Blocks, Laws and Names.
-- Prelude: Boolean tests, lists, byte texts, association lists and stable sorting. Examples: the
-- theorems at concrete inputs.
--
-- How the parts interact: Diff reads results through the functions of Model, and the party of each
-- request was set by Classify. Confidence and Diff share IncompleteRatio and the ratio that Options
-- resolves; Notify shares the consent caveats with Confidence and the severities with Diff. The daemon
-- asks Retry whether a result is attempted again, and the limiter for a slot. A report is a value:
-- `add` and the loops, which append to it in the source, are functions from the report to the next
-- one, in the order of the source.
--
-- Choices of the model:
-- - A Go string is its list of bytes. ToLower and TrimSpace treat ASCII; the texts that the code
--   lowers are host names and modes.
-- - A Go map is an association list without duplicate keys. The order in which a range statement
--   visits a map is an argument, `MapOrder`: any permutation of the entries, another one for each
--   loop.
-- - float64 is the interface `Float` with the operations that the code uses. Nothing is assumed of
--   them.
-- - url.Parse and the public suffix list are the interface `Domains`, internal/normalize the
--   interface `Normalizer`. Nothing is assumed of them.
-- - The sentences that fmt.Sprintf builds are data (`Message`, `Observed`, `Caveat`): one
--   constructor for each sentence, with its arguments.
-- - Times and durations are nanoseconds in ℕ. A time span of the program is below 2^63 ns, and the
--   code multiplies a duration by 4 at most, so a duration below 2^61 ns (73 years) does not wrap.
-- - The current result of a comparison is there; a nil baseline is `none`.
-- - Every loop is structural recursion on the list it walks or on the passes that are left, but for
--   three. `digits` has fuel for the twenty digits that print every int64. The loops over the pages of
--   dangling references have fuel for one round per reference at the start, `enough`, and a page takes
--   at least one. `delete_batches` has fuel for one round per scan id, and a batch takes at least one.
-- - Each hold of the scheduler's lock is one step of Daemon/Steps: the check of a job and its start are
--   two, and so are the reading of a policy and what a run then does to the job, with the steps of other
--   goroutines between them. The dispatch and the reload are one goroutine, so no reload comes between a
--   check and the start. The ticker and the semaphore are the order of the steps.
-- - The index of the store is a record of its tables, and a statement is the function of it that SQL
--   gives the statement. The statements succeed; requests to the bucket fail and the context ends as
--   the argument `Faults` says. The clock is an argument. A moment counts nanoseconds from 1970 on.
-- - The calendar of a location is the argument `location`; HMAC and the JSON codec of a link are the
--   interface `Codec` of Share, and the JSON of a baseline and of an audit entry the one of
--   Store/Baselines, with the laws `CodecLaws` where a theorem needs them; base64 is written out.
--
-- Not modelled: the capture of a scan in the browser, consent interaction, normalization, the
-- fetching of robots.txt, the rest of the store (documents, migrations, rebuilds, SQL dialects), the
-- delivery of notifications over HTTP, the HTTP and MCP interfaces,
-- configuration loading, containers, reports and metrics.
pub mod Prelude
pub mod Model
pub mod Classify
pub mod Diff
pub mod Confidence
pub mod Retry
pub mod Schedule
pub mod Limiter
pub mod Daemon
pub mod Notify
pub mod Robots
pub mod Share
pub mod Store
pub mod Adhoc
pub mod Examples
