-- ===== src/Tests.antt =====
-- Concrete inputs: each theorem with hypotheses applied where they hold.
mod Setting
mod Pushes
mod Pulls
mod Stored
mod Cash
mod Shop
mod Account
