-- ===== src/Tests.antt =====
-- Runs of the program on concrete inputs.
pub mod Runtime
pub mod Syntax
pub mod Joins
pub mod Commits
pub mod Tables
mod Log
mod Pages
mod Records
mod Queries
