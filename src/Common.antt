-- ===== src/Common.antt =====
-- What the parts of the application share: errors (src/common/errors), actions on a state that may
-- throw, JSON values, and the interface to stored tables.
pub mod Errors
pub mod Exec
pub mod Json
pub mod Rows
pub mod Object
pub mod Counters
pub mod Table
pub mod Timed
pub mod Expiring
