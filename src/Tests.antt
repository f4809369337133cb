-- ===== src/Tests.antt =====
-- The theorems at concrete inputs.
mod Data
mod Value
mod PostCondition
mod Spending
mod Transaction
mod Message
mod Device
mod Display
mod Objects
mod Arguments
