-- ===== src/Tests.antt =====
-- Runs of the definitions, and the theorems at concrete inputs.
mod Utils
mod Tokens
mod Pages
mod Values
mod Cursor
mod Parser
mod Schema
