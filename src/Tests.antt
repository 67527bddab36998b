-- ===== src/Tests.antt =====
-- Runs at concrete inputs: small tests, and each theorem applied where its hypotheses hold.
pub mod Toy
mod Wire
mod Messages
mod Mailboxes
mod Homes
mod Links
mod Groups
