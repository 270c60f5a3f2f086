-- ===== src/Lib.antt =====
-- process-compose: a model of the core of the process orchestrator, and what holds of it.
--
-- The program runs the processes of a project: it loads their configurations, admits some of them,
-- starts each as soon as its dependencies meet their conditions, restarts and stops them, probes
-- their health and keeps their logs. The parts and their files:
--
-- - Common: tests on numbers and texts, lists, Go maps as association lists (Common/Dicts), signed
--   integers (Common/Int).
-- - Types: src/types/process.go, namespaces.go, schedule.go and src/command/kill_mode.go.
--   Types/Namespaces, Types/Enums (restart policies, dependency conditions, kill modes and their
--   YAML names), Types/Config (configurations and their validation), Types/State (the observable
--   state, readiness, the displayed status).
-- - Health: src/health/probe.go and health_checks.go: defaults of probes, the verdict of a check.
-- - LogBuffer: src/pclog/process_log_buffer.go: the ring buffer and its observers.
-- - Process: src/app/process.go and daemon.go: one incarnation of a process. Process holds the record
--   with its setters; Process/Lifecycle start and end; Process/Stopping the ways to stop and the
--   signals; Process/Waiting what dependents wait for; Process/Running the launch loop `run`.
-- - Runner: src/app/project_runner.go: instances by name, incarnations and the end of their
--   goroutines; Runner/Stops stop, start and restart; Runner/Waits `waitIfNeeded`;
--   Runner/Overlay the labels of `GetProcessState`; Runner/Completion the end of
--   the project; Runner/Shutdown the order of `ShutDownProject` and what each process waits for;
--   Runner/Namespace the processes of a namespace.
-- - Loader: src/loader/validators.go: the checks on dependencies. Loader/Replicas: the defaults and the
--   replicas of src/loader/mutators.go.
-- - Order: src/types/project.go and src/loader/validators.go: the walk along the dependencies and the
--   search for circular ones. Order/Paths says what a cycle and an order are. Order/Dependents:
--   `TransitiveDependents` of src/types/graph.go, the processes that `watch` restarts.
-- - Watcher: src/watcher: Watcher/Debounce one debouncer, Watcher/Flap the sliding window of restarts,
--   Watcher/Registry the shared directories and their budgets, Watcher/Sections the critical sections
--   that change them, Watcher/Dispatch events and triggers.
-- - Admitter: src/admitter: which processes of a project are kept.
--
-- A Go function `fooBar` is the function `foo_bar`, a method takes its receiver last and returns the
-- new one, and a mutex makes its section one step. A pointer to a process is a number, and the
-- runner's heap says what it points to, so that a stored state and the process that updates it are
-- one object. A `select` is the list of the cases that may be taken, empty where it blocks. What is
-- sent to the operating system is a list of signals; what comes back is an argument (StopEnv, Round).
-- Map iteration follows the list that stands for the map, and theorems hold for every list.
--
-- The walks of Order recur on fuel, one more than the number of processes, since each level of the
-- recursion marks another one; those of Order/Dependents as well, since a name is queued once. How
-- many digits the floating-point logarithm finds in a number of replicas is an argument. In the
-- watcher, whether a directory is accepted, what a matcher accepts and which paths lie under which
-- are arguments. Watcher/Sections runs what changes the directories lock by lock; `handleTrigger` is
-- one step, with the project as it is at the time.
--
-- The launch loop runs on a list of rounds, one for each launch. Machine words: stop epochs wrap at
-- 2^64; other counters are natural numbers, and `int` is unbounded.
--
-- Not modelled: the terminal interface, the HTTP API and its client, the command line, the loading
-- of files, templates, scheduler, the watcher's matchers and scans, metrics, the environment and
-- the pipes of a process. They are input, output and calls of libraries, or parts left for later.
pub mod Common
pub mod LogBuffer
pub mod Health
pub mod Types
pub mod Process
pub mod Runner
pub mod Admitter
pub mod Loader
pub mod Order
pub mod Watcher
