-- ===== src/Tests.antt =====
-- The theorems at concrete inputs: whole numbers for `float`, and a transport that follows a script.
mod Fixtures
mod Commands
mod Recovery
mod Readings
mod Line
mod Registry
mod Settling
mod Converting
mod Evidencing
mod Calling
mod Profiles
mod Closing
mod Measuring
mod Opening
mod Connecting
mod Logging
