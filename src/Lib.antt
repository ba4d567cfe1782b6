-- ===== src/Lib.antt =====
-- The core of ncore, a toolkit for Go services: the task queue, the concurrency helpers, the registry,
-- initialization order, events and metrics of the extension system, paging and the expression engine.
--
-- The parts and how they meet:
-- * messaging/queue/queue.go gives each task an ID, a priority and a retry budget. Queue/Task.antt
--   has the record; a pointer to a task is a number and the heap is a function (`Store`).
-- * messaging/queue/priority.go keeps waiting tasks in one slice for each level and a map from IDs.
--   Queue/Priority.antt has one function for each method (NewPriorityQueue is `new_priority_queue`,
--   Push is `push`, and so on). Its children give the abstract view, one list of tasks in
--   service order (View, Order), the well-formedness of a queue (WellFormed, Index), and what
--   each method does to that list (Push, Pop, BatchLoop, Batch, Cancel, Update, Queries).
-- * messaging/queue/timer.go keeps tasks by the time at which they are due: Queue/Timer.antt, with the
--   heap of Go's container/heap as its two loops.
--   Push and PushBatch of queue.go, which send a task to one of these two or to a channel, are
--   Queue/Front.antt, with the configuration.
-- * executeTask, processTaskWithRetry and isRetryableError of queue.go are Queue/Retry.antt and
--   Queue/Failure.antt. The processor is a parameter: what its call returns at each attempt.
-- * concurrency/concurrency.go is Concurrency/Manager.antt, and concurrency/worker/worker.go, which
--   runs the queue's tasks, is Concurrency/Worker.antt. Both are cut into the pieces between
--   two operations on a channel or an atomic counter, and a schedule is any list of pieces.
-- * extension/registry/registry.go builds the dependency graph of the registered extensions:
--   Extension/Resolve.antt, and Extension/Cycles.antt for its search for cycles.
-- * extension/manager/utils.go orders the extensions by that graph before the manager starts
--   them: Extension/InitOrder.antt, with checkDependencies of extension/manager/lifecycle.go.
--   The order that the search for cycles finds and the one that getInitOrder returns are
--   described by the same predicate, IsInitOrder, and Extension/Startup.antt puts them together.
-- * extension/event/dispatcher.go is Extension/Event.antt, a schedule of its callers and handlers.
-- * validation/expression is Expression.antt and its children. Tokens is the tokenizer of expression.go,
--   byte for byte; Parser its recursive descent, with the syntax tree and the printed tokens of a tree
--   (Print) beside it; Validate the checks of depth, operators and strict syntax, and the default operators;
--   Evaluate the evaluation of the nodes over any handlers, with the state that these read and change, and a
--   postfix program for each tree (Postfix, Parts, Runs).
--   Cache is cache.go, the store of results that Evaluate reads before it tokenizes: a map of the
--   elements of a list, and its abstract view, the list of entries (Recency). Value is estimateSize.
-- * extension/metrics/memory_storage.go, which keeps what extensions measure, is Metrics/Storage.antt.
-- * paging/paging.go, which cuts the lists that services return into pages, is Paging.antt; the function that
--   fetches the items is an argument.
-- Common.antt and its children have the lists, maps, tests and integers that the parts share.
--
-- Numbers are natural numbers where the code keeps them so, and integers where it reads negative
-- ones. An index out of range, or a capacity above the largest that
-- `make` gives (an argument), is `none`, a send on a closed channel `panics`. A map is a list of
-- pairs, in the order in which a loop meets them. The counters are taken without wrap-around.
--
-- Fuel: getInitOrder has one round for each extension with dependencies and one more, since each
-- round that is not the last leaves fewer; the search for cycles has one call for each name of the
-- graph and one more, since each call marks a name. DueTasks has one round
-- for each task, and the loops of the heap have its length. The loop of Set that makes room has one round for
-- each entry and one more. tokenize has one round for each byte and one more, which is enough unless it
-- stands still; the parser has four calls for each token and three more. All other loops are structural.
--
-- Not modelled: processTimers, DecodeCursor, the aggregation of metrics, the default functions of
-- expressions, the engine's Evaluate with its keys of the cache, panics of a processor, floating-point
-- rates, locks (each method of the priority queue, the registry and the cache is one step, as it holds
-- one for its whole length), and the adapters of databases, storage, search, logging and HTTP.
pub mod Common
pub mod Concurrency
pub mod Expression
pub mod Extension
pub mod Metrics
pub mod Paging
pub mod Queue
