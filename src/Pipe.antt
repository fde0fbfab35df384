-- ===== src/Pipe.antt =====
-- The pipe service of user/src/bin/pipe, and the map that it keeps its processes and pipes in.
pub mod Channel
pub mod PidMap
pub mod Processes
pub mod Responses
pub mod Service
