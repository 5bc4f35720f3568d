-- ===== src/Lib.antt =====
-- sparkcore-go schedules Spark-like jobs: a driver builds a lineage of RDDs (plan/), a planner
-- cuts it into stages at the shuffles (scheduler/planner.go), a generator makes one task for each
-- partition of a stage, the DAG scheduler submits each stage as a task set to the FIFO task
-- scheduler (scheduler/fifo_task_scheduler.go), which hands its tasks to remote workers as they
-- heartbeat and takes their reports. Map tasks write shuffle files whose metadata (shuffle/) goes
-- with the report and comes back as the input of the stages downstream.
--
-- Common holds the native numbers, Go's signed integers as ℤ, lists, Boolean equality as an
-- instance, and maps as association lists (Common/Dict) under the laws of lookup.
--
-- The lineage data of plan/ids.go, partitioner.go, operator.go, dependency.go and rdd_node.go is
-- in Plan. Plan/Graph models plan/graph.go and Plan/Validate plan/validate.go, whose recursion
-- over the lineage is on fuel, one more than the number of nodes; running out of it is an error of
-- the model's own. The fuel is enough on a lineage with a cycle too, since the nodes of a path
-- have a visit state. The proofs on them are in Insertion, Soundness, Completeness, Lineage and
-- Fuel beside them, and a small lineage is in Tests.
--
-- Shuffle, Shuffle/Metadata and Shuffle/Input model shuffle/metadata.go, reference.go and
-- input.go; the proof on a snapshot's validation is in Shuffle/Soundness, with an example in
-- Shuffle/Tests. The digest of the empty file is a parameter, since crypto/sha256 is not part of
-- the repository.
--
-- Scheduler models the data of scheduler/stage.go, operation.go, task.go, task_set.go and
-- failure.go, and Scheduler/Output task_output.go and ValidateFailure. A record's payload is a
-- type V that the scheduler never inspects. Scheduler/Functions models function_validation.go,
-- Scheduler/Planner planner.go and Scheduler/Generator task_generator.go, with the proofs in
-- Scheduler/Planner/Ordering, Scheduler/Planner/Success (and Shape, its lemmas on the shape of a
-- dependency) and Scheduler/Generator/Numbering and an example in Scheduler/Tests. The function
-- lookup, an interface, is a parameter. The generator's count of tasks is an int64 with its wrap,
-- and a negative one is the panic of make, an error. The fuel of these recursions over the lineage
-- is one more than the number of nodes, since no path of a lineage without a cycle visits a node
-- twice.
--
-- Scheduler/Fifo models scheduler/fifo_task_scheduler.go, worker_registry.go and worker_expiry.go:
-- the state is in Fifo, RegisterWorker in Registry, prepareTaskSet in Prepare, OfferResources in
-- Offer, ReportSuccess and ReportFailure in Report, ExpireWorkers in Expiry, ScheduleTaskSet and
-- Close in Lifecycle, and Run is a history of such calls. The proofs are in Order (which tasks an
-- offer hands out), Capacity (reservations), Budget (attempts), Fencing (repeated reports and
-- errors), Queue, Sorted and, for predicates on all sets, Sets; Tests runs a small history. Every
-- method holds the scheduler's mutex for its whole body, so a history is a list of atomic calls.
-- ScheduleTaskSet, whose body unlocks while it waits, is a submission, a drain of reports, which
-- returns the set's error once the set is terminal, and a signal. A pointer to a task set or a
-- task is its key or its position in the set; a context is the error it holds, if any; a time is a
-- number of nanoseconds. Go's copies of metadata are identities on values. The attempt ids are
-- uint64 and wrap at 2 ^ 64, and so does the model's counter. The count of free slots that goes
-- below zero in the source is only compared with zero, so it stops at zero here. Logging has no
-- model. The order on worker ids and the text of a lost worker's error are parameters.
--
-- Scheduler/Dag models scheduler/dag_scheduler.go, dag_stage_execution.go, dag_recovery.go and
-- event.go: Dag holds the state and the events, Dag/Stages startReadyStages, Dag/Recovery
-- recoverShuffle and failJob, Dag/Handlers the handlers of the event loop and a history of events.
-- The proofs on the limit on stage attempts are in Dag/Attempts, Dag/Limit and Dag/History, with
-- an example in Dag/Tests. One goroutine handles the events one by one, so a history is a list.
-- The task sets, cancellations and responses that the handlers send are lists in the state. The
-- end of a caller's context is an event of the environment. A place where the source would
-- dereference nil is an error of the model's own. The count of records is an int64 with its wrap.
--
-- Executor/TextSource models executor/text_source.go: Open, position and Next on the bytes of a
-- file. Its offsets are int64 products with their wrap. The proofs are in Boundaries (the lines of
-- a file and those between two offsets), Reading (one iterator) and Partitions, with an example in
-- Tests. The loop over Next is on fuel, one more than the bytes that are left, since each call but
-- the last takes one.
--
-- Executor/Registry models executor/function_registry.go, with the proof in Registry/Permanence.
-- Executor/Iterator models executor/iterator.go and record.go, Executor/Reduce reduce.go,
-- Executor/Pipeline pipeline.go and Executor/LocalRunner runTask of local_runner.go. A pipeline is
-- built for a task execution in a context: the source reader is called with the task's partition
-- and partition count. An iterator is a state with Next on it, like the interface of the source;
-- the function tables, the source reader, the iterator of a shuffle read and the order on keys are
-- parameters. The context is fixed during a call of Next. The loops over Next are on fuel, one
-- more than the count of records that the iterator says are left; Execution shows that this is
-- enough for iterators that each record takes down. text_open in Executor/Iterator is
-- TextSourceReader.Open as a source reader, for the proofs on text files. Runs describes the
-- operators on sequences by clauses of their own, independently of the iterators; the proofs are
-- in Operators, Reduction, Execution, Actions and, for text partitions, Lines, with examples in
-- Tests.
--
-- Api models the transformations of api/rdd.go and TextFile of api/context.go, and Jobspec
-- jobspec/spec.go and build.go: the description of a job, its validation and the building of its
-- lineage through Api. A handle is the id of its node. The proof is in Jobspec/Building, with an
-- example in Jobspec/Tests.
--
-- Protocol models the requests of protocol/worker.go and task_report.go, the result of job.go and
-- their validation in protocol/validate.go, Protocol/Responses the responses, those of error.go
-- included, and Protocol/Assignment the validation of a task assignment there and of an execution
-- in scheduler/task.go. Executor/ShuffleRead models validateShuffleExecution of
-- executor/shuffle_read.go. Scheduler/Kinds has the tests that both share. What these call of Go's
-- library (strings, encoding/json, net/url, encoding/hex) is the record Library, a parameter. The
-- proofs are in Pipelines, Admission, Dispatch and Heartbeats, with examples in Tests.
--
-- Not modelled: Run and Close of the DAG scheduler, the queue of its event loop, the observers of
-- its task sets, the permits, the map side and the closing of iterators of the executor, its local
-- scheduler, the shuffle files, the HTTP side of coordinator and worker, the decoding of a job
-- description, the actions and explanations of the user interface and the commands.
pub mod Common
pub mod Plan
pub mod Shuffle
pub mod Scheduler
pub mod Executor
pub mod Api
pub mod Jobspec
pub mod Protocol
