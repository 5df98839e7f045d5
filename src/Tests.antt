-- ===== src/Tests.antt =====
-- Runs of the definitions at concrete inputs, and the theorems applied to such inputs.
mod Columns
mod Undoing
mod Copying
mod Marking
mod Macros
mod Specs
mod Parts
pub mod Linking
pub mod Keys
pub mod Names
pub mod Viewing
pub mod Splitting
pub mod Starting
