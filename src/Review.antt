-- ===== src/Review.antt =====
-- graphs/suggestion_review.py: the review of the week's drafts, from the size that the context gives
-- them to the rows that are kept. The proofs are in the children that are named for what they prove.
pub mod Levels
pub mod Sizing
pub mod Critic
pub mod Graph
pub mod Origins
pub mod Steps
pub mod Running
pub mod Places
pub mod Reach
pub mod Sizes
pub mod Revisions
pub mod Rationales
mod Tests
