-- ===== src/Clinic.antt =====
-- The clinic of lab9: patients queue for a doctor who also takes in medicine from pharmacists.
pub mod Queue
pub mod System
pub mod Steps
pub mod Medicine
pub mod Deadlock
pub mod Lost
pub mod Attempts
pub mod Cabinet
mod Tests
