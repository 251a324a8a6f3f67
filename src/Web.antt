-- ===== src/Web.antt =====
-- rust/src/web.rs: the loopback HTTP boundary of the controller.
pub mod Text
pub mod Request
pub mod Framing
pub mod Authority
pub mod Handle
pub mod Actor
