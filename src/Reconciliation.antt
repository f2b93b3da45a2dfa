-- ===== src/Reconciliation.antt =====
-- services/reconciliation.py, by its parts: the matching of the broker's fills to suggestions, the
-- rows that are kept of them, the profit of a sale, the orders that ended at the broker, and the
-- cancels that are inferred. The proofs are below.
pub mod Matching
pub mod Pnl
pub mod Persist
pub mod Sync
pub mod Choosing
pub mod MatchingLaws
pub mod PnlLaws
pub mod PersistLaws
pub mod RowLaws
pub mod SyncLaws
mod Tests
