-- ===== src/Task.antt =====
-- os/src/task: process identifiers, kernel stacks and the ready queue.
pub mod Pid
pub mod Kernel
pub mod Manager
mod Tests
mod KernelTests
mod ForkTests
