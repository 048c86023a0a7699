-- ===== src/Lib.antt =====
-- LoadTool: a load-testing tool for HTTP APIs and other protocols, written in Go. A script's options
-- are resolved to scenarios (internal/config); the runner turns each scenario into an executor and
-- hands it to the engine (internal/runner, internal/engine), which starts iterations on virtual users
-- (VUs); the VUs record latencies into shared histograms (internal/metrics); at the end the merged
-- histograms give the summary, and the verdict gives the exit code (internal/report). The local UI
-- (internal/ui) takes a form, checks it and its destination (internal/netguard) and runs one test at a
-- time through the runner.
--
-- Which file models what:
--   Prelude         shared names, integers over the native numbers (Int), 64-bit words (Words), a
--                   result type (Result) and float64 as an interface with no laws (Float)
--   Metrics/Bucket     bucketIndex, bucketMid (internal/metrics/histogram.go); Bits and Bounds hold
--                   the arithmetic of shifts, Accuracy the error of a bucket
--   Metrics/Histogram  histogram, record, combine, percentile; Tallies says what counters mean,
--                   Merge is about combine, Rank about order statistics, Percentile joins them
--   Metrics/Recorder   the recorders of a run and their checks (internal/metrics/metrics.go,
--                   checks.go) over a store of shards, and in Merge the summary; Accounts says what
--                   the counters mean, Kept and Totals are its proofs
--   Metrics/Sampler    the time series (internal/metrics/sampler.go); Conserved is about its points
--   Metrics/Families   NewFamilies and ID (internal/metrics/families.go), in Declared what it accepts;
--                   Samples has the recorders' calls and the summary, Grown and Totals the sums
--   Engine/Ramp     RampingVUs: crossing, next, activeAt (internal/engine/executors.go). Line and
--                   Segment are the arithmetic in a stage, Crossing the rounding of its divisions,
--                   Finds and Next the search, Active the number of VUs, Drive the
--                   rounds of a VU's loop
--   Engine/Arrival  ConstantArrivalRate: Schedule is offset, Tokens the scheduler with its VUs, a
--                   step relation in which every order of events is a path
--   Engine/Executor validate of the three executors (Accepted, Overflow), and activeVUs of
--                   internal/engine/scenario.go (Active)
--   Config/Scenario resolveScenario (internal/config/scenarios.go) in Resolve, and Valid
--   Config/Run      resolveScenarios, and in Chosen Resolve and Validate (internal/config/options.go,
--                   config.go); Sound and Resolved are about their results
--   Script          Program and WithExecs (internal/script/script.go, exec.go), in Prepared what a
--                   program can run
--   Runner          executor (internal/runner/runner.go), between the configuration and the engine
--   Runner/Run      Run (internal/runner/runner.go): Runner/Action is the sequence of calls with errors
--                   and deferred calls, Host the script runtime and all that is outside, Start the
--                   creation of the VUs with RunScenariosSampled (internal/engine/scenario.go),
--                   Lifecycle the run. Legal is the automaton of the calls, Numbered the numbers of
--                   the VUs, Judged the result and its verdict
--   Report          Verdict (internal/report/outcome.go)
--   Thresholds      Evaluate, compare, Failed (internal/thresholds/thresholds.go), and in Evaluated
--                   what the verdict makes of them; Pattern is the regular expression of an expression,
--                   as a scan and as a language (Grammar), Parse is Parse
--   Protocol        Classify, Record and FamilyIDs (internal/protocol/errors.go, record.go)
--   Ws              a WebSocket session (internal/protocols/ws/session.go, socket.go): Handlers is what
--                   JavaScript does to it, Session the event loop and connect; Grown holds what no
--                   step undoes, Ended is about the end of the loop, Recorded about what a
--                   session records
--   Netguard        CheckAddr, Control, CheckURL (internal/netguard/netguard.go); Public has the ranges,
--                   Reachable the URLs
--   Ui/Redact       the redactor (internal/ui/redact.go)
--   Ui/Config       the form (internal/ui/config.go) and in Build its checks; Passed takes an accepted
--                   form apart, Within, Clean and Secret are about its limits, headers and secrets
--   Ui/Controller   the controller and its runs (internal/ui/controller.go), View what its readers
--                   see, Schedule the step relation of its locked sections; Followed carries a
--                   property of a run along the steps
--   Ui/Server       the checks and handlers of the HTTP interface (internal/ui/server.go)
-- The modules named Tests hold runs at concrete inputs.
--
-- Numbers. Counters are uint64 and wrap (Prelude/Words). The product in offset is an int64 that
-- wraps, and so are the lengths of stages and the sums over scenarios (add_int64 of Prelude/Int). The
-- arithmetic of an accepted ramp stays below 2^63 while the sum of its durations does
-- (Executor/Overflow), so it is written in integers, the ends of its stages included. Floating point
-- is a parameter, and what a theorem needs of it is a hypothesis.
--
-- Loops are recursions on lists, but for the 64 rounds of len64: a number below 2^64 is 0 after 64
-- halvings. The calls of JavaScript that are nested in one another are a recursion on their depth,
-- beyond which the interpreter throws as at the end of its stack. Division by zero and the other
-- panics are values.
--
-- Order of events. The atomic counters of a histogram are updated one call at a time. The scheduler
-- of an arrival rate, its VUs and a cancellation interleave freely; time is not modelled beyond the
-- offsets, so a start may be decided late, as in the code. The UI's requests, and the samples,
-- warnings and ends of its runs, interleave freely as well; samples and warnings may come late. Between
-- two events of a WebSocket session, and between two rounds of a VU of a ramp, time passes and the
-- context may end, as a parameter of the model says.
--
-- Texts that the code looks into are the lists of their bytes (Prelude/Texts), with ASCII letters and
-- spaces. The libraries of Go that read and write texts (net/url, net/netip, encoding, mime, time) are
-- parameters.
--
-- Not modelled: parsing of JSON, the JavaScript interpreter and compiler (goja, esbuild) with the
-- objects that scripts see, the clients of gRPC, GraphQL and Kafka, the HTTP client, formatting of
-- reports and the command line; of the local UI, what a run is given to execute and what a preflight
-- sends. Texts of errors are constructors, but for those that the UI redacts.
pub mod Prelude
pub mod Metrics
pub mod Engine
pub mod Config
pub mod Report
pub mod Runner
pub mod Thresholds
pub mod Protocol
pub mod Netguard
pub mod Ui
pub mod Script
pub mod Ws
