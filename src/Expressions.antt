-- ===== src/Expressions.antt =====
-- src/bm_sim/expressions.cpp and include/bm/bm_sim/expressions.h: expressions of a P4 program, flattened
-- to operations on stacks, with registers for the results of arithmetic. The opcodes' names in a JSON
-- file, the collection of register arrays for locking and the references that the lvalue functions
-- return are not modelled.
pub mod Ops
pub mod Build
pub mod Temps
pub mod Eval
pub mod Source
pub mod Code
pub mod Assign
pub mod Steps
pub mod Outcome
pub mod Correct
pub mod Choice
pub mod Meaning
pub mod Evaluate
pub mod Types
pub mod Resolve
mod Tests
