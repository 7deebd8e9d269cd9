-- ===== src/Lib.antt =====
-- KubeHealth in Cubical Type Theory: a verification library for the Go program in the repository's root,
-- a server that watches Kubernetes clusters and shows what fails in them.
--
-- How the parts interact. A worker (main.go) fetches the events of one namespace after another, the one
-- that was fetched longest ago first, and a feed (warnings.go) lists the warnings of the whole cluster
-- page by page. Both fill caches of events; the views merge them. The home page (problems.go) groups the
-- events of each namespace by the top of their owner chain (owners.go), makes a row of each group with
-- warnings, merges rows that look like one cause into patterns, and counts the rows. Owners that only
-- the names show are looked up by a resolver with a queue (owners.go). A cluster may be reached through
-- a tunnel (tunnels.go), a command of the user that the program starts, watches and stops. Events near
-- those of an object (correlate.go) are read from the same caches. The settings (settings.go) bound how
-- many calls of the language model run at once; a brief picks the log lines that its prompt gets
-- (brief.go). A namespace page (main.go) groups the events by object and joins the objects to families
-- by their names. A root cause analysis (rca.go) puts an object's evidence, with a block of linked
-- objects (linked.go), in a prompt that fits the model, and then asks the model in rounds. The YAML
-- panel (yaml_view.go) shows an object and a benchmark's recorder (bench_record.go) stores one; both
-- read decoded JSON and must keep a Secret's values back.
--
-- Which file models what; paths of the program are from the repository's root.
--   Prelude     tests, lists, texts and their bytes, int64, orders of `sort`, stable sorting, lists with keys
--   Time        time.Time and time.Duration; Time/Ages is formatAge (problems.go) and formatDuration
--               (main.go)
--   Events      EventSummary (main.go), mergeEvents and sortNewestFirst (warnings.go)
--   Caches      nsEntry (main.go), warnFeedState and the views of warnings.go: namespaceEvents,
--               allNamespaceEvents, scopeEvents; Caches/Feed is refreshWarnings, warnFeedDue and
--               warnFeedStatus; Caches/Sweep is fetchEvents, refreshNamespace and workerTick (main.go);
--               Caches/Maps is Go's map as an association list
--   Owners      ownerState; Owners/Names is stripLast, isAllDigits (main.go), isSafeEncoded and
--               inferParent; Owners/Chain is ownerChain and cronJobFailingSince; Owners/Queue is
--               requestOwnerConfirmation, requestRootLookup, runOwnerResolver and resolveOwner
--   Problems    Problem, fillFromWarnings, setTiming, sortedReasons and sortProblems; Problems/Words is
--               plural and truncate; Problems/Cluster is clusterProblems; Problems/Groups and
--               Problems/Members are the loop of buildProblems, confirmOwners and groupProblem;
--               Problems/Patterns is groupPatterns, with its union-find in Patterns/Union and
--               makePattern in Patterns/Rows; Problems/Build is buildProblems
--   Home        the summary and the rail of buildHome (problems.go)
--   Tunnels     TunnelDef with endpoint and validate; Tunnels/Saved is tunnelByName, tunnelForContext,
--               saveTunnel and deleteTunnel; Tunnels/Runs is logLocked, startTunnel, spawnLocked,
--               watchReady, exited with its timer, stopTunnel and stopAllTunnels
--   Correlate   buildCorrelateResponse (correlate.go)
--   Settings    the setters, the POST of handleAPISettings and the slots for model calls (settings.go)
--   Families    ObjectEvents, groupByObject and groupByKind (main.go); Families/Parents is detectParent,
--               Families/Trees is buildFamilies
--   Tokens      estimateTokens (brief.go)
--   Brief       pickLogLines (brief.go); Brief/Notes is maybeStartBrief, regenerateBrief, preemptBrief
--               and the end of runBrief; Brief/Readable is readableLogLines, Brief/Think stripThink
--   Linked      linkedItem, writeLinked, renderLinked and linkedBudget (linked.go); Linked/Distance is
--               editDistance; Linked/Follow is linker with its helpers, Follow/Config is configRefs,
--               Follow/Claims is claims, Follow/Pulls is pullSecrets, Follow/Words is
--               containsWord and oneLine
--   Rca         Rca/Evidence is newestEvents and evidence with logLines and render (rca.go); Rca/Fit is
--               promptBudget and fit; Rca/Agent is RCAState and runRCAAgent from the first prompt on
--   Json        decoded API objects with nmMap and nmStr (main.go); Json/Paths is what stands at a path
--   Snapshots   sanitizeForSnapshot, dropEnvValues, listForSnapshot and the choice of namespaces in
--               recordSnapshot (bench_record.go)
--   Secrets     maskSecret and secretValue (yaml_view.go); Secrets/Bytes is base64 and utf8.Valid
--   Examples    runs at concrete inputs, and each theorem at an input where its hypotheses hold
--
-- How state and operations correspond. A struct is a record with the fields of the source in its order,
-- a method that changes it is a function from the old state to the new one. A method that takes a lock
-- is one step, and what may run in between is a step relation: the resolver's in
-- Owners/Queue/Consistent, where one lookup is under way at a time, the calls of the model in
-- Settings/Slots, a tunnel's requests, callbacks and output in Tunnels/Runs/Steps, and a brief's note in
-- Brief/Notes/Slots, where each part of a request, of a stop and of the end of a run that has a lock of
-- its own is a step of its own (preempt_brief and finish_brief are these parts in a row). An error is a
-- value of the result. A map is an association list, iterated in the order of the list. `sort.Slice` is
-- a stable sort, which is what it amounts to where no two elements tie.
--
-- Numbers. A count is an integer whose sums wrap around as int64 does. A time is a natural number of
-- nanoseconds since Go's zero time, a duration an integer, and a difference saturates as `Time.Sub`
-- does; `int(d.Hours())` is the whole hours and `int(s.Seconds() + 0.5)` the nearest second, both by
-- integer division. The clock is read once per operation. `len` of a text counts bytes, a text is walked
-- by code points.
--
-- Bounds and fuel. The feed reads at most 20 pages, as the source does, and the loop is by recursion on
-- the pages left. An owner chain has at most 4 owners, by recursion on the rounds left. The searches of
-- the union-find have as much fuel as there are links: each link puts a root at most one step further
-- away. The cutting of a linked block has more fuel than the block has lines, since each round drops one
-- at least. A family has at most three levels, since a parent is of a higher kind. The binary search has
-- as much fuel as there are sizes. The agent recurs on the rounds left. A decimal is printed with its
-- own value as fuel, since each digit makes the number smaller.
--
-- Parameters. The answers of the API server, the matches of the expressions of linked.go with the
-- quoting of `%q`, the match of `logErrorRe` and `stackFrameRe`, `unicode.IsLetter` and
-- `unicode.IsDigit`, the floating-point sum of `estimateTokens`, the model and its tools, the clock, the
-- zone of the machine (`format_local`), how a call of the model ends, url.Parse, whether a file was
-- written, whether a port is open, and how a process starts and ends.
--
-- Not modelled: the HTTP handlers and pages, the client libraries and the language models (ai.go,
-- claudecode.go, mcp.go, embedded_on.go), the rendering of objects and logs (describe.go, logs.go and
-- the rest of yaml_view.go), the rest of the morning brief (brief.go), the rules that find linked
-- Services and nodes (linked.go), the switching of clusters (cluster.go), the tools of an analysis and
-- the gathering of its evidence (rca.go), the rest of the benchmark (bench.go and what belongs to it)
-- and the front end. Of tunnels.go the handlers, `localRequest` and `applyTunnel` are left out, and the
-- splitting of a process's output into lines.
pub mod Prelude
pub mod Time
pub mod Events
pub mod Caches
pub mod Owners
pub mod Problems
pub mod Home
pub mod Families
pub mod Tunnels
pub mod Correlate
pub mod Settings
pub mod Tokens
pub mod Linked
pub mod Rca
pub mod Brief
pub mod Examples
pub mod Json
pub mod Snapshots
pub mod Secrets
