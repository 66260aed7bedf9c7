-- ===== src/Workflow.antt =====
-- workflow/kernel.py and workflow/journal.py: the task state machine and its audit journals.
pub mod State
pub mod Report
pub mod Journal
pub mod Kernel
mod Tests
