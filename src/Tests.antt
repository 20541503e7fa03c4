-- ===== src/Tests.antt =====
-- Runs of the definitions on concrete inputs, and the theorems at such inputs.
mod Filters
mod Times
mod Servos
mod Segments
mod Messages
mod Lines
mod Nans
mod Clocks
mod Configs
mod Sockets
mod Programs
mod Entries
