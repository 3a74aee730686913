-- ===== src/Lib.antt =====
-- KubeMin-Cli, the server of pkg/apiserver: a model of its workflow engine, with proofs.
--
-- A workflow is a list of steps over the components of an application. A request puts a task, a row
-- of the table of tasks, into the queue with status waiting. A dispatcher claims the row by a
-- compare-and-swap of its status and sends a message; a worker reads the message, marks the task
-- and runs its controller. The controller builds executions from the steps, each a map from priority
-- to jobs, and hands the jobs of one priority after another to the job runner, which runs them one
-- by one or in a pool of workers. The controller writes the status of the task back to the table.
--
-- Before that, the application service stores what a client asks for: the application, its
-- components, some of them taken from template applications, and its default workflow, whose steps
-- refer to the components by name. The validation service decides the same requests without storing.
--
-- Which file models what:
-- - Base.antt: texts as lists of code points, dictionaries, tests on numbers.
-- - Config.antt: pkg/apiserver/config/consts.go, share.go and resources.go.
-- - Model.antt: pkg/apiserver/domain/model, workflow.go, workflow_queue.go, job.go, applications.go.
-- - Store.antt: Get, Put and CompareAndSwap of pkg/apiserver/infrastructure/datastore/sql/driver.go on
--   the table of tasks, UpdateTaskStatus and TaskRunning of pkg/apiserver/domain/repository/workflow.go.
--   gorm is the parameter `Gorm`, a record of statements with laws; Store/OneRow.antt is an instance.
-- - Queue.antt: InitQueue, claimAndProcessTask, processDispatchMessage, updateQueueAndRunTask of
--   pkg/apiserver/event/workflow, and the cancelling of pkg/apiserver/domain/service/workflow.go.
--   Competing servers are a list of actions on one table.
-- - Buckets.antt: the maps from priority to jobs of pkg/apiserver/event/workflow/job_builder.go.
-- - Naming.antt: pkg/apiserver/workflow/naming/naming.go with ToRFC1123Name and NormalizeLowerStrip.
-- - Builder.antt and Builder/: the rest of job_builder.go. The generators of Kubernetes objects and
--   the decoding of properties are the parameter `Env`.
-- - Job.antt: runJob and RunJobs of pkg/apiserver/event/workflow/job/job.go; Job/Pool.antt: its
--   worker pool, a step relation. What the controller of a job does is a parameter.
-- - Job/Shared.antt: shared.go beside it, with the answers of the lock and of the API as parameters.
-- - Controller.antt: pkg/apiserver/event/workflow/controller.go; RunJobs is a parameter there.
--   The time that Put stamps on the task is left out there.
-- - Locker.antt: pkg/apiserver/infrastructure/locker/memory.go. The mutexes of a process are numbered
--   in Locker/Mutexes.antt, and operations on them are a list.
-- - Informer.antt: the waiter of pkg/apiserver/infrastructure/informer. The goroutines that wait and
--   the events are one list of steps in Informer/Waits.antt.
-- - MemCache.antt: pkg/apiserver/utils/cache/mem_cache.go.
-- - Signal.antt: pkg/apiserver/workflow/signal/cancel.go; Signal/Protocol.antt is a history of the key
--   of one task, in which the key does not expire and the calls of a Stop are two steps, and Signal/Registry.antt is the registry
--   for a process without Redis.
-- - TaskStatus.antt: GetTaskStatus of pkg/apiserver/domain/service/workflow.go, by component.
-- - Tracker.antt: pkg/apiserver/event/workflow/job/cleanup_tracker.go.
-- - Worker.antt: StartWorker of pkg/apiserver/event/workflow/dispatcher.go, a function of the events
--   that the rounds of its loop meet.
-- - Regexp.antt: the regular expressions of Go that the validation uses, matched by derivatives.
-- - Spec.antt: pkg/apiserver/domain/spec/traits.go and the requests of
--   pkg/apiserver/interfaces/api/dto/v1.
-- - Validation.antt and Validation/: pkg/apiserver/domain/service/validation.go. A validator is a
--   function to the list of its errors; the rules that accepted requests follow are in
--   Validation/Label, Rules, Nesting, Requests, Steps and Accepted.
-- - Application.antt and Application/: pkg/apiserver/domain/service/application.go. References
--   (the names that steps refer to), Components, Resolve, Template and Rewrite (components of a
--   request and of templates), WorkflowName (unique names, the default workflow), Upsert and Create
--   (CreateApplications over stored tables and those of a transaction), EditWorkflow
--   (UpdateApplicationWorkflow), Version and Release (UpdateVersion), Cleanup
--   (CleanupApplicationResources). The other modules there are proofs.
--
-- Numbers: durations of the worker are bit patterns of int64 with the wrap-around written out.
-- Unix times and timeouts are natural numbers. Two loops have fuel: the collapsing of dashes in a
-- name gets the length of the name, and every turn makes the name shorter; the search for an unused
-- name of a workflow gets one turn more than there are workflows.
--
-- Not modelled: the job controllers, which call the Kubernetes API; the HTTP interface; the clients of
-- Redis, Kafka and Kubernetes; the traits' translation to Kubernetes objects; the start and stop of
-- the informers; the lists for display; logging and tracing. The loops that poll the store are
-- not modelled either, and of the semaphore over workflows only whether it gives a slot. A job pool
-- shares its jobs by pointer, so a job is its index there.
pub mod Base
pub mod Config
pub mod Informer
pub mod MemCache
pub mod Model
pub mod Store
pub mod Queue
pub mod Buckets
pub mod Naming
pub mod Builder
pub mod Job
pub mod Controller
pub mod Worker
pub mod Locker
pub mod Signal
pub mod TaskStatus
pub mod Tracker
pub mod Regexp
pub mod Spec
pub mod Validation
pub mod Application
