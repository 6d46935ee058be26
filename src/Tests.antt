-- ===== src/Tests.antt =====
-- Runs of the definitions on small inputs, and the theorems applied to them.
mod Capture
mod Tables
mod Cli
mod Commands
mod Main
mod Output
mod Texts
