-- ===== src/Printer.antt =====
-- The printer spooling daemon of more01/apue.3e/printer/printd.c: its list of jobs, its list of
-- worker threads, the attributes of its requests, and what a client and the printer make of a job.
pub mod Queue
pub mod Contents
pub mod Order
pub mod Removal
pub mod Runs
pub mod Kept
pub mod Refines
pub mod Workers
pub mod Lost
pub mod Numbers
pub mod Options
pub mod Read
pub mod Client
mod Copied
pub mod Stored
pub mod Turn
pub mod Safe
pub mod Spool
pub mod Service
pub mod Start
pub mod Started
mod Tests
mod StartTests
