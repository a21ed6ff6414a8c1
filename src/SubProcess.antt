-- ===== src/SubProcess.antt =====
-- include/SubProcess and lib/SubProcess: what is started, how it is executed, and the process.
pub mod StartInfo
pub mod Launcher
pub mod Process
pub mod Spawner
