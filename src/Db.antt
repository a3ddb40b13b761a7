-- ===== src/Db.antt =====
-- The hashed database library, more01/apue.3e/db/db.c.
pub mod State
pub mod Record
pub mod Ops
pub mod Open
pub mod Pointer
pub mod Entry
pub mod Readidx
pub mod Chain
pub mod Fetch
pub mod Frame
pub mod Append
pub mod Free
pub mod Store
pub mod Insert
pub mod Without
pub mod Patch
pub mod Spread
pub mod Unlink
pub mod Unlinked
pub mod Freed
pub mod Dodelete
pub mod Delete
pub mod Replace
pub mod Rewrite
mod Tests
mod Witnesses
mod InsertTests
mod DeleteTests
