-- ===== src/Tests.antt =====
-- Tests: whole programs run on the list containers, and the properties at concrete inputs.
mod Programs
mod Reaches
mod Globals
mod Values
mod Words
mod Runtimes
mod Shells
mod Systems
mod Kills
