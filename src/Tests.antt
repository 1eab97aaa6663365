-- ===== src/Tests.antt =====
-- Sample runs, and the theorems at concrete inputs.
mod Switch
mod Frames
mod Codec
mod Tables
mod Lifecycles
mod Commands
mod Queries
mod Machines
mod Probes
mod Measurements
mod Harnesses
mod Sharing
mod Servers
mod Through
mod Sockets
mod Programs
mod Histories
