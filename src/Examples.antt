-- ===== src/Examples.antt =====
-- Small concrete inputs, tests of the definitions on them, and the theorems at them.
mod Shop
mod Matching
mod Filter
mod Sync
mod Agents
mod Register
mod Registration
mod Contexts
mod OnWrite
mod Main
mod Init
mod Numbered
mod Mill
mod Aggregation
mod Mirrored
mod ReadAgent
mod Unregister
mod Removal
mod Emptied
mod Namespace
mod Values
mod Search
mod NodePath
mod Method
mod Clear
mod Address
