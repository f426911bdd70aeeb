-- ===== src/Program.antt =====
-- crates/perch-program: the constraint program of a rule, its validation and its evaluation.
pub mod Verdict
pub mod Leaf
pub mod Rpn
