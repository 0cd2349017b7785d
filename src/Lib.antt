-- ===== src/Lib.antt =====
-- selfevals: the durable execution of evaluation runs. A run job is queued in a workspace, leased by
-- one worker, and run by a coordinator; the coordinator seeds one scenario job for each case of an
-- iteration, workers claim and run them, and a barrier waits until none is left. The optimization
-- loop asks a proposer for the next change of an agent, runs the sampled cases under a trace
-- recorder, grades and aggregates them, and decides what to keep.
--
-- Storage.antt (src/selfevals/storage/postgres/storage.py, interface.py, mappers/run_job.py): a
--   table is a list of rows; put_entity is the compare-and-set on the version, get_entity tells a
--   missing row from one of another workspace. An exception is an `err`, without rows. An
--   upsert keeps the created_at of the row. Ids and workspaces are strings, times and versions natural numbers.
-- Experiments.antt (src/selfevals/schemas/experiment.py): the states of an experiment and
--   transition_to, whose exception is the constructor `illegal`.
-- Jobs.antt (src/selfevals/schemas/job.py, RunJob): a method that assigns fields is a function to
--   the changed record. Jobs/Lease.antt is src/selfevals/api/run_jobs.py, Jobs/Execute.antt the
--   execute_run_job of api/run_launcher.py, Jobs/Sweep.antt worker/lease_sweeper.py and the
--   statements on run_jobs of storage/postgres/queries.py. The clock is an argument. The run of
--   the coordinator, which may change the tables and may raise, is an argument of
--   execute_run_job. Jobs/Lifecycle.antt has the steps of a job as a relation: the row,
--   and the copies that processes hold of it, however old. Jobs/Writes.antt
--   relates its writes to the calls, Jobs/Stale.antt is about a worker that writes its copy after
--   the sweeper gave the job up.
-- Scenarios.antt (src/selfevals/schemas/job.py, ScenarioJob): Scenarios/Queue.antt is the
--   statements on scenario_jobs of storage/postgres/queries.py, Scenarios/Worker.antt is
--   worker/scenario_runner.py and the barrier of optimization/coordinator.py,
--   Scenarios/Planning.antt is plan_scenario_jobs of api/run_jobs.py. The rows that other
--   transactions have locked are an argument of a claim, so is the database's order of ids. The
--   loop of the drain runs on fuel; the attempts that the jobs have left are enough of it.
--
-- Graders.antt, Aggregation.antt (src/selfevals/graders/base.py, optimization/aggregator.py): the
--   outcome of a case. Aggregation/Metrics.antt has the pass metrics, Aggregation/Funnel.antt the
--   merging of breakdown trees, Aggregation/Confusion.antt and Aggregation/Cells.antt the confusion
--   matrix (graders/_confusion.py, graders/classification.py), Aggregation/Iteration.antt
--   aggregate_iteration. Floats are a type with the operations that the code uses, an argument; a
--   quotient of two counts is kept exact, as its numerator and denominator. A dict is the list of its
--   items in the order of insertion. The names pass@k and pass^k are constructors that carry k.
-- Broker.antt (src/selfevals/api/broker.py): the channels and the store of subscribers; a call is a
--   function to the changed broker.
-- Decision.antt (src/selfevals/decision/matrix.py): the decision of an iteration. Loop.antt
--   (src/selfevals/optimization/loop.py): _run_iterations; `range(max_iter)` is recursion on the
--   iterations that are left. What the loop calls is a record of functions on the state of
--   everything around it; the proposer and the run of an iteration may raise, which leaves the loop.
-- Retry.antt (src/selfevals/runner/retry.py): the loop of a call that is made again. It runs on fuel,
--   of which max_retries + 1 rounds are enough.
-- Pairing.antt (src/selfevals/optimization/pairing.py): which pairs of a tournament are judged.
-- Regression.antt (src/selfevals/ci/regression.py): the gate of a run against a baseline, fed by the
--   confusion report of Aggregation.
-- SetMatch.antt (src/selfevals/graders/set_match.py): the scores of a detected set of labels.
-- Panel.antt (src/selfevals/graders/judge_panel_consensus.py): the consensus of a panel of judges.
-- Outcomes.antt (src/selfevals/optimization/scenario_outcomes.py, graders/base.py): the row of an
--   outcome, the dict of a breakdown tree, and the metrics of an iteration from its rows.
-- Trajectory.antt (src/selfevals/graders/trajectory_checks.py): the diagnostics on the tools that a
--   trace invoked.
-- Trace.antt (src/selfevals/schemas/trace.py): the spans of a trace, Trace/Whole.antt the trace, and
--   Trace/Valid.antt the tests that its constructor makes. Trace/Recorder.antt and Trace/Builders.antt
--   (src/selfevals/trace/recorder.py, recorder_spans.py, span_sink.py): a `with` block is its entry and
--   its exit, and an execution a tree of blocks. Trace/Rows.antt
--   (src/selfevals/storage/postgres/mappers/trace_spans_write.py, trace_spans_read.py, trace.py, and the
--   migrations of their tables): the rows of the spans. Trace/Mapper.antt (trace.py, trace_write.py and
--   trace_build.py there) writes and loads a whole trace. The ids of a trace's spans are distinct where
--   they are written, so that no primary key is violated.
-- Sampling.antt (src/selfevals/optimization/sampling.py): which cases enter the optimization loop and
--   which are held out; the sampler is an argument with the promise IsSample.
-- Proposers.antt (src/selfevals/optimization/proposers.py, schemas/iteration.py): the contract of a
--   proposal, Proposers/Combos.antt the grid, Proposers/Strategies.antt the proposers and their state.
--   Loop/Sweep.antt runs the loop with the grid: what the loop calls is related to the grid by IsGrid.
--
-- Simplified: what a sweep or a cancel request committed before it raised is not kept; the loop's writes
-- to storage, and building the loop of a run job, are taken not to raise; INTEGER columns have no
-- bound; a span whose own field tests raise at the exit of its block is not modelled.
-- Not modelled: the HTTP routes, the command line, the database's own transactions, the adapters
-- of agents and models, and the reports.
pub mod Prelude
pub mod Storage
pub mod Experiments
pub mod Jobs
pub mod Scenarios
pub mod Aggregation
pub mod Broker
pub mod Decision
pub mod Graders
pub mod Loop
pub mod Outcomes
pub mod Pairing
pub mod Panel
pub mod Proposers
pub mod Regression
pub mod Retry
pub mod Sampling
pub mod SetMatch
pub mod Trace
pub mod Trajectory
pub mod Tests
