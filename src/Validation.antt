-- ===== src/Validation.antt =====
-- frontend/src/validation.ts: the field validation that the forms share. A helper returns a message
-- or `none`, and `none` for a field that is empty.
pub mod Names
pub mod Numbers
pub mod Ipv4
pub mod Ipv6
pub mod Hosts
pub mod Tests
