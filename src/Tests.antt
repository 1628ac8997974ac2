-- ===== src/Tests.antt =====
-- Runs of the model on concrete bytes (most of them from the tests of the crates), and the
-- headline theorems at concrete inputs.
mod Wire
mod Client
mod Script
mod Session
mod Embassy
mod Server
mod Node
mod Serving
mod Monitor
mod Worker
