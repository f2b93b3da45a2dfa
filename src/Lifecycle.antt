-- ===== src/Lifecycle.antt =====
-- The life of an order suggestion, over the operations of services/suggest.py, services/unaccept.py,
-- services/reconciliation.py, services/targets.py, jobs/suggestion_expiry.py, jobs/reconciliation.py and main.py that change one: a diagram of its
-- states, and the operations as steps along it.
pub mod Diagram
pub mod Changes
pub mod Operations
pub mod Sweeps
pub mod Requests
pub mod Targets
pub mod Daily
pub mod Reviewed
pub mod Histories
mod Tests
