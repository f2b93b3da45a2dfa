-- ===== src/Suggest.antt =====
-- services/suggest.py: the anchor of a limit price, the suggestions of a week with their budget, and
-- the rows that are kept of them. The proofs are in `Budget`,
-- `Coverage`, `Keeping`, `Slots` and `Anchors`.
pub mod Anchor
pub mod Generate
pub mod Persist
pub mod Topup
pub mod Budget
pub mod Coverage
pub mod Keeping
pub mod Slots
pub mod Anchors
pub mod Returning
pub mod TopupFit
pub mod Headroom
mod Tests
