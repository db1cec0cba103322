-- ===== src/Syscall.antt =====
-- os/src/syscall, os/src/fs and the parts of os/src/task/task.rs that they call.
pub mod Files
pub mod Wait
