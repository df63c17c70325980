-- ===== src/Configuration.antt =====
-- src/util.cpp: `configure_system`, which reads the file streaming.conf, with `GraphWorker::set_config`.
pub mod Text
pub mod Defs
pub mod Bounds
pub mod Writing
