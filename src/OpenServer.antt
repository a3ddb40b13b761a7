-- ===== src/OpenServer.antt =====
-- The open server of more01/apue.3e/ipc2/opend, with buf_args of more01/apue.3e/lib/bufargs.c.
pub mod Args
pub mod Clients
pub mod Request
pub mod Words
pub mod Slots
pub mod Replies
pub mod Passing
pub mod Passed
pub mod Select
pub mod Accepted
pub mod Selected
pub mod Scanned
pub mod Poll
pub mod Rounds
mod Tests
mod PassingTests
mod LoopTests
