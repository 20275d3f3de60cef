-- ===== src/Tests.antt =====
-- The theorems at concrete inputs, one child module for each part of the program.
pub mod Guard
pub mod Cache
pub mod Limits
pub mod Auth
pub mod Retry
pub mod Validation
pub mod Telemetry
pub mod Snapshot
pub mod Envelope
pub mod Transport
pub mod Timetable
pub mod Load
pub mod Service
pub mod Pharmacy
pub mod Water
pub mod WaterService
pub mod Disruptions
pub mod Accessibility
pub mod Facilities
pub mod Sql
pub mod Resources
