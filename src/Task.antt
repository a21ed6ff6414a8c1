-- ===== src/Task.antt =====
-- include/Task and lib/Task: requests, tables of handlers, the state machine and the tasks.
pub mod Request
pub mod Aggregator
pub mod StateMachine
pub mod EventTask
pub mod Pool
pub mod Interface
pub mod Manager
pub mod Statement
pub mod TaskBase
pub mod BackGroundWorker
