-- ===== src/Examples.antt =====
-- The theorems at concrete inputs, and runs of the definitions.
mod Formats
mod Sample
mod Bindings
mod Events
mod Messages
