-- ===== src/Ooe.antt =====
-- runtime/ooe/state_machine.py: the save pipeline of the Order of Execution. The definitions are in
-- Step, Context and Pipeline; the proofs in the other children.
pub mod Step
pub mod Context
pub mod Pipeline
pub mod Execute
pub mod Entry
pub mod Grows
pub mod Order
pub mod Preserves
pub mod Gate
pub mod Rounds
pub mod Fresh
pub mod Refire
pub mod Written
pub mod Flows
pub mod Cascade
pub mod Scope
