-- ===== src/Lib.antt =====
-- The Resource Action Operator: a Kubernetes operator that watches resources of any type, and when
-- one is created, updated or deleted runs the actions of the ResourceAction objects that the event
-- concerns: HTTP calls and Jobs.
--
-- The parts of the program, and the files that model them:
--
--   * api/v1alpha1/resourceaction_types.go, the resource: Api. A record for each struct, with the
--     fields of the source. An optional field is an Option, a Go map is a list of pairs, a time is
--     its Unix time in milliseconds.
--   * api/v1alpha1/validation.go, the checks that the webhook and the controller share: Validation,
--     one function for each function of the source. Validation.Http.Accepted,
--     Validation.Job.Accepted and Validation.Spec.Accepted describe what is accepted.
--   * internal/engine/executor.go: Matching has the tests whether a ResourceAction concerns an
--     event; Conditions has setCondition, and the closure of setSpecCondition of
--     internal/controller/resourceaction_controller.go; Executor has executeAction and
--     resolveHeaders (Executor.Actions), the status update (Executor.Status), the text of an event
--     (Executor.Event) and the loop of Execute (Executor.Run).
--   * internal/engine/http_executor.go: Http.Policy has the URL policy, Http.Backoff the waits,
--     Http.Transport the TLS settings, Http.Attempts the loop over the attempts and Http.Execute the
--     function around it.
--   * internal/engine/job_executor.go: Jobs.Command and Jobs.Build make the Kubernetes Job, and
--     Jobs.Execute creates it; Jobs.Track has the goroutine that follows it, and Jobs.Logs reads
--     the tail of its log. A text counts the bytes of its UTF-8 form there, against the buffer of
--     bufio.Scanner (65536 bytes).
--   * internal/engine/cron_engine.go: Cron.
--   * internal/engine/engine.go: Engine. Engine.Ensured describes the discovery and the start of an
--     informer.
--   * internal/controller/resourceaction_controller.go: Controller. Controller.Verdict follows a
--     reconciliation into Engine.Ensured and Writes.
--   * api/v1alpha1/resourceaction_webhook.go: Webhook.
--   * internal/engine/metrics.go: Metrics.Collectors has the Prometheus collectors, Metrics the two
--     functions that observe a run and a finished Job.
--   * cmd/main.go: Main, with New of internal/engine/engine.go, NewK8sExecutor of
--     internal/engine/executor.go and the registration of the types in
--     api/v1alpha1/groupversion_info.go. Main.Steps describes the setup as a list of calls, Main.Tls
--     the TLS settings of its servers.
--   * The goroutines together: System. Its steps are the critical sections of the engine and of the
--     cron engine, and any change of the world.
--   * The three closures that are given to RetryOnConflict, while others write: Writes.
--
-- How they interact: Controller.reconcile validates a stored ResourceAction and asks the engine to
-- watch its kind (Engine.ensure_watching). A handler of an informer makes a MatchInput of an event
-- (Engine.add_func and its like), and Engine.on_event gives it to the cron engine
-- (Cron.ensure_for_match) and to the executor. Executor.Run.execute lists the ResourceActions; for
-- each one that the event concerns (Matching.concerns) and whose run is not on record it runs the
-- actions (Executor.Actions.run_actions), each by Http.Execute.execute_with_metrics or
-- Jobs.Execute.execute_job, adds up their metrics, and records the run in the status.
--
-- What other code does is a parameter. The record Std holds functions of Go's standard library
-- (regular expressions, URLs, durations, templates, IP addresses), and the record Runtime holds what
-- acts on the world: the Kubernetes client with RetryOnConflict, the clientset with its log streams,
-- the network, the clock, the random numbers, the Prometheus client with its sync.Once, and the start
-- of a goroutine. Its operations pass a state of the world, of which nothing is known. What a theorem
-- needs of either record is a hypothesis of it: Executor.Run.Step.IsStore is what a run of the
-- executor relies on of the Kubernetes API, Writes.IsServer what a single update relies on. Of package
-- strings, TrimSpace, EqualFold and ToLower are written out (Prelude.Text), of package net the classes
-- of addresses (Http.Policy), and of package bufio the scan of lines (Jobs.Logs).
--
-- Errors are values: `Check` is a function that returns an error, `Result A` one that returns a
-- value too, and each fmt.Errorf is a constructor of Error with the values that it formats.
--
-- Integers: a counter that cannot be negative is a native number. The wait between attempts, the
-- totals and the durations are integers whose sums and products wrap to 64 bits (Prelude.Int).
-- The difference of two readings of the clock is an exact integer.
--
-- Concurrency: an operation is a function of the state that it is given. The mutexes of the engine and
-- of the cron engine are held for EnsureWatching behind its discovery, and for each registration of a
-- cron action; System interleaves these sections in any order, and System.Handlers runs every handler
-- through them. A goroutine is a Task that is started; what it does is modelled over the wakes of its
-- select (Jobs.Track.track_job_execution, Cron.run_cron_until). Writes states what
-- an API server that compares resource versions does while others write the ResourceActions too
-- (IsServer), and Writes.Atomic has the closures of RetryOnConflict against it; a theorem about whole
-- runs has IsStore as a hypothesis, by which nobody else writes them, and that their Lists do not lag.
--
-- A float64 that is handed to a collector is the integer that it is made of, in units or in
-- thousandths (Metrics.Collectors.Amount).
--
-- Loops are structural recursion over their list. The loop over the attempts recurses on the number
-- of attempts left, which starts at the number allowed; that is enough, since a round goes on to the
-- next one only if its attempt is not the last one allowed.
--
-- The setup makes its calls through one parameter, which performs a value of Main.Call. A
-- certificate watcher is named by the files that it watches, and the options of a TLS configuration
-- are values that Main.apply_option applies; each append to them makes a new list, as it does in the
-- source, where the slice that is appended to has no room left.
--
-- Not modelled: the log messages, the parsing of the flags, the generated deep copies (the records
-- are values), the constructors that only fill in fields (NewEngine, NewCronEngine, NewHTTPExecutor,
-- NewJobExecutor), a log that is not valid UTF-8, the closing of its stream, and the redirects that
-- the HTTP client follows.
pub mod Prelude
pub mod Api
pub mod Std
pub mod Validation
pub mod Matching
pub mod Conditions
pub mod Http
pub mod Kube
pub mod Runtime
pub mod Metrics
pub mod Jobs
pub mod Executor
pub mod Cron
pub mod Engine
pub mod Controller
pub mod Webhook
pub mod Writes
pub mod System
pub mod Main
pub mod Examples
