-- ===== src/Tests.antt =====
-- Runs of the modelled code at concrete inputs, and the theorems at inputs that meet their
-- hypotheses.
mod Server
mod Shell
mod Allocator
mod Chat
mod Freeing
mod Images
mod Matchlab
mod Pages
mod Script
