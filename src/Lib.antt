-- ===== src/Lib.antt =====
-- Verification of ascetic_ddd, a Python library of building blocks for domain-driven design.
--
-- The parts of the program, the files that model them, and how they interact:
--
-- - ascetic_ddd/saga: Saga.antt has the routing slip (work_item.py, work_log.py, routing_slip.py) with
--   process_next and undo_last, the interface of activity.py, and the loops `execute` and `undo_all`
--   that both composite activities contain. Saga/Fallback.antt is fallback_activity.py, Saga/Host.antt
--   is activity_host.py, Saga/Parallel.antt is parallel_activity.py, with the schedule of the event loop as
--   an argument. Saga/Rollback.antt, Saga/Fallback/Choice.antt and Saga/Host/* hold the proofs;
--   Saga/Host/Broker.antt is a broker that delivers the messages of hosts one at a time. The
--   activities of an application, with all that they read and change, are parameters.
-- - ascetic_ddd/specification/domain: Specification/Nodes.antt has nodes.py,
--   Specification/Visitor.antt the stack machine of evaluate_visitor.py. Specification/Evaluation.antt
--   says what a specification means without a stack, Correctness compares the two.
-- - ascetic_ddd/specification/infrastructure: Specification/Schema.antt is schema.py,
--   Specification/Sql.antt postgresql_visitor.py over the same nodes, Specification/Transform.antt
--   transform_visitor.py with composite_expression_node.py.
-- - ascetic_ddd/faker/domain/query: Query.antt has the operators (operators.py), Query/Evaluation.antt the
--   three evaluators of evaluate_visitor.py, Query/Parser.antt parser.py and the visitor to dictionaries,
--   Query/Plain.antt the rest of visitors.py. Query/Merge/* is what equality and sums of queries mean,
--   where Conjunction has the sums.
-- - ascetic_ddd/session/identity_map.py: IdentityMap.antt, with weak references, the cache that is
--   ordered by use, and the isolation levels.
-- - ascetic_ddd/seedwork/domain: Aggregate.antt (aggregate/, event-sourced and versioned), Identity.antt
--   (identity/identity.py), Money.antt (values/money/).
-- - ascetic_ddd/option: OptionType.antt.
-- - ascetic_ddd/dag_change: DagChange.antt (dag_change_manager.py) and DagChange/Simple.antt
--   (simple_change_manager.py); DagChange/Propagation.antt is `notify` of the former, as the list of the
--   observers that it updates. ascetic_ddd/dag_change_typed: TypedDagChange.antt, whose graph is that
--   of DagChange.antt, since the two sources repeat the text.
-- - ascetic_ddd/signals, event_bus and mediator: Messaging/Signal.antt, Messaging/EventBus.antt and
--   Messaging/Mediator.antt. ascetic_ddd/disposable: Disposable.antt. ascetic_ddd/deferred:
--   Deferred.antt.
--
-- Prelude holds what they share: tests and lists on native numbers, results of calls that may raise
-- (Result), Python's dictionaries and integers (Dict, Integers), lists with repeated members
-- (Multisets). A call that changes an object takes its state and returns the new one; an exception is
-- the result `raise`; the world that application code changes is a type parameter that is passed along.
-- Keys, identities and type names are numbers where the code only compares them. Coroutines are run to
-- their end, but for the branches of a parallel activity, which take turns: the work of an activity, and
-- its compensation, is one step there.
--
-- Loops over lists are structural. The loops of the saga take fuel, since an activity may put new work
-- on a slip: Saga.antt gives one fuel for going forward and one for compensating, and each is enough
-- when it exceeds the number of work items; the broker's fuel counts messages. The search of `notify`
-- recurses on fuel, and the number of registered observers is a bound for it; its sorting loop takes
-- fuel too, one for each affected observer and one to end. A schedule of a parallel activity is enough
-- when a branch with n items has more than 2n turns, and more than n of them to be compensated.
--
-- Not modelled: notify of the typed change manager, whose text is that of
-- DagChange/Propagation.antt, Deferred.all, copies of signals, the parsers of specifications and
-- compile_specification, batches, inbox and outbox, validators, and fake data other than its
-- queries; sessions, repositories, keys, file storage and scaffolding, which are input and output;
-- and graph, which is a copy of another project's code.
pub mod Prelude
pub mod Saga
pub mod Specification
pub mod IdentityMap
pub mod OptionType
pub mod Aggregate
pub mod DagChange
pub mod TypedDagChange
pub mod Messaging
pub mod Money
pub mod Query
pub mod Deferred
pub mod Identity
pub mod Disposable
