-- ===== src/Tests.antt =====
-- Runs of the model on concrete inputs, and the theorems applied to them.
mod Reader
mod Splitter
mod Output
mod Registry
mod Lines
mod Values
mod Phone
mod Packet
mod Terminal
mod Data
mod Sessions
mod Plugins
