-- ===== src/Llm.antt =====
-- The client of the language model, services/llm.py, and the call that the graphs share,
-- graphs/_nodes.py.
pub mod Retry
pub mod Fences
pub mod Client
pub mod Node
pub mod Attempts
pub mod Spending
mod Tests
