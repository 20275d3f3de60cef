-- ===== src/Guard.antt =====
-- app/core/abuse_guard.py, one child module for each class.
pub mod Clients
pub mod Concurrency
pub mod Middleware
