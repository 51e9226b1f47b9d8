-- ===== src/Tests.antt =====
-- Runs of the model at concrete inputs, and each theorem with conditions at an input that meets them.
mod Samples
mod Orders
mod Groups
mod Codecs
mod Transfers
mod Pairs
mod Wires
mod Past
mod Delays
mod Versions
mod Saved
mod Stores
mod Turns
