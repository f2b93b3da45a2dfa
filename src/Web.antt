-- ===== src/Web.antt =====
-- main.py and services/magic_link.py: the endpoints that change a row or reach a broker. The proofs
-- are in the children that are named for what they prove.
pub mod Reply
pub mod MagicLink
pub mod Acting
pub mod Stopping
pub mod Fills
pub mod Resets
pub mod Links
pub mod Once
pub mod Stops
pub mod Modes
pub mod Caps
pub mod Promotion
mod Tests
