-- ===== src/Control.antt =====
-- crates/control/src/lib.rs: the upload front end.
pub mod Token
pub mod Publish
pub mod Upload
pub mod Admin
