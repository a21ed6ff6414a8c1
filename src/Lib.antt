-- ===== src/Lib.antt =====
-- CppFramework: a model of its concurrency and process library, with the theorems that its parts
-- keep. Paths are from the repository's root.
--
-- The program. Errors are values with a code, a text and an optional context. A request names a
-- sender, a command and an optional payload. An event task owns a queue of messages and a thread:
-- the thread takes the oldest message, serves internal commands itself and gives the others to the
-- handlers of the task, either a table by command or a state machine with a table for each state,
-- and answers the client that waits for the reply. A manager keeps event tasks under names and
-- routes requests to them. Beside these there are a pool of worker threads, a flag of event bits
-- that threads wait for, a worker that runs one task in the background, a message queue of the
-- kernel, a timer, child processes with their pipes, and templates for enumerations and properties.
--
-- The files and the code.
--   Error: include/Exception and lib/Exception. Exception and SystemException are records; the
--     constructors are new_exception, new_exception_with and new_system_exception. Error.Outcome
--     is code with effects that returns or throws: a fault is std::out_of_range, an exception of
--     the library, or any other thrown value.
--   Message: include/Message. IMessageQueue is a record of operations and of the laws that a
--     client relies on; SynchronizedDeque fills it, each method being one step under its mutex.
--     Message.Deque.Waiters runs its senders and receivers beside each other, with their sleeps.
--     Message.Posix is the queue of the kernel: System names the kernel's calls and what is
--     documented of them, Deadline is about its timeouts, Refines compares it with the queue of
--     objects.
--   Task.Request: include/Task/EventRequest.hpp, its constructors and assignments.
--   Task.Aggregator: include/Task/MessageEventAggregator.hpp, the table of handlers.
--   Task.StateMachine: include/Task/StateMachine.hpp. The running part (the current state and the
--     table it points to) is a world that handlers share, so that they may change it. Automaton
--     compares it with the automaton of its table; Bound is its invariant; Faults its errors.
--   Task.EventTask: include/Task/EventTaskBase.hpp. iterate is one turn of main_loop, settle its
--     end with the reply, post the Sender, and Api the methods. A reply is a place in a list that
--     the message names. System has the steps of clients and thread in any order; Queue, Turn,
--     Drain, Halting, Answers, Stopped and Race are about the loop and about what becomes of
--     replies; Answered, Due and Prompt follow one call from its sender to its reply.
--   Task.Statement: include/Task/MessageTask.hpp and include/Task/StatementTask.hpp, the programs
--     of the two kinds of event tasks; Builder is about chains of on() and the start.
--     Run composes the task with the automaton of its state machine, Rpc a call with its reply, and
--     EventTask.Serves the loop with the plain sequence of the handlers' calls.
--   Task.TaskBase, Task.BackGroundWorker: include/Task/TaskBase.hpp, lib/Task/TaskBase.cpp,
--     include/Task/BackGroundWorker.hpp and lib/Task/BackGroundWorker.cpp. System has the moves of
--     the worker's thread, one for each atomic store, and the calls of clients in any order;
--     Invariant, Runs, Serving, Stopping and Losing argue over all runs.
--   Task.Manager: include/Task/EventTaskManager.hpp over the interface Task.Interface; Registry is
--     about its names, Abstract forgets the order of its map by a quotient, and Locking is about
--     calls that wait under its lock.
--   Task.Pool: include/Task/TaskPool.hpp and lib/Task/TaskPool.cpp. System has the steps of the
--     workers and of the clients, split where the mutex is given up: a worker tests its predicate,
--     sleeps, wakes, takes a task, which may be an empty function, and runs it. A task that throws
--     ends the program. Invariant, Order and Wakeup argue over all runs; Finish is about a stopped
--     pool, Live and Quiet about one that is not, and Delivery about what becomes of each task.
--   Sync.EventFlag: include/Sync/EventFlag.hpp and lib/Sync/EventFlag.cpp. Match and Ends are about
--     the two modes, Waiters about sleeping threads and notifications.
--   SubProcess: include/SubProcess and lib/SubProcess. StartInfo and Launcher are the command and
--     its exec call, and StartInfo.Words takes a command line apart; Process is the start with its
--     pipes, Result the collection of what the child leaves, Handle the moves, the destructor and
--     kill. Every system call is an event of a trace, and what it answers is an argument.
--     Lifetime has the handles of a child, which are moved and assigned, beside the detached
--     thread, Moved and Kept being about what their destructors do and Killing about kill beside the
--     thread; Spawner is the fork of ProcessSpawner.hpp; Pipes runs the collection beside the child,
--     over pipes of any capacity.
--   Templates: include/Templates. EnumBitset is a set of bits as a list, lowest first, with the
--     values of the enumeration as numbers, and Numbers compares the two; EnumOperations has the
--     bit operators and the casts of EnumCast.hpp on numbers of a width; Property has references as
--     places in a store.
--   Timer: include/Timer.hpp and lib/Timer/Timer.cpp. The calls of clients and the moves of the
--     thread are actions in any order; Ticks is about how often the handlers are called.
--   Prelude has maps as association lists (std::map, std::unordered_map), bit operations, and
--     lists indexed by native numbers. Tests runs the definitions at concrete inputs.
--
-- Bounds and fuel. loop runs main_loop for a number of rounds, as many as the queue has messages,
-- since each round takes one. kill runs its polling loop for 51 rounds: its deadline is 500
-- milliseconds off, and each round but the last sleeps for at least 10. The lowest set bit of a
-- value is looked for in 64 rounds, its width. clear of the kernel's queue runs for one round more
-- than there are messages, as the last one finds none. All other loops are recursions on their
-- data. Bit patterns and identities are natural numbers; -1 is an empty option, except that a state
-- machine has its own value for it.
--
-- Not modelled. A negative timeout, and the overflow of a timeout in nanoseconds, are left out.
-- Spurious wakeups are steps of the pool, of the flag and of the background worker. The time that
-- waits take, memory orders, the state of objects that were moved from, and what a child
-- process does itself, but for the bytes that it writes and its end, are outside the model; the
-- destructor of a handle and kill are run beside the collecting thread, but not beside each other.
-- create_file of include/utility.hpp only opens a file.
mod Prelude
pub mod Error
pub mod Message
pub mod Task
pub mod Sync
pub mod Timer
pub mod Templates
pub mod SubProcess
mod Tests
