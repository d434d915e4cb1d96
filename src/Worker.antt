-- ===== src/Worker.antt =====
-- worker/: the worker that does the file operations of one user in one session.
pub mod Cache
pub mod State
pub mod Files
pub mod Listers
pub mod Lifecycle
pub mod Life
pub mod Counts
pub mod Balance
pub mod Cached
pub mod Opened
pub mod Listed
