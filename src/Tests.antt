-- ===== src/Tests.antt =====
-- Concrete rulesets and scopes, and the theorems applied to them.
pub mod Data
pub mod Scopes
pub mod Numbers
pub mod Exprs
pub mod Tables
pub mod Graphs
pub mod Stages
pub mod Codecs
pub mod Lineages
pub mod Endings
pub mod Levels
pub mod Configs
pub mod Mappers
pub mod Clocks
pub mod Sources
pub mod Inputs
