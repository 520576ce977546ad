-- ===== src/Agent/Safety.antt =====
-- What a run can do to the world outside: the rules for one predicate on worlds, and the theorems
-- that a whole run keeps it.
pub mod Rules
pub mod Call
pub mod Turns
pub mod Answers
pub mod Run
