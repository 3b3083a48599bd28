-- ===== src/Tests.antt =====
-- Runs of the modelled code on concrete inputs.
mod Frames
mod Settings
mod Readings
mod Memory
mod Scales
mod Sequences
mod Drivers
mod Profiles
mod Requests
mod Events
mod Controls
mod Images
mod Flushes
