-- ===== src/Tests.antt =====
-- Runs of the theorems at concrete inputs.
mod Data
mod Serving
mod Tables
mod Services
mod Programs
mod Concurrent
mod Settings
mod Shutdown
mod Migration
