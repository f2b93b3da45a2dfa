-- ===== src/AutoTrade.antt =====
-- services/auto_trade.py: the engine that places orders for accepted suggestions. The children
-- down to `Pass` are the code, the others are about it.
pub mod State
pub mod Queries
pub mod Guards
pub mod KillSwitch
pub mod Round
pub mod Pass
pub mod Rows
pub mod Changes
pub mod Loop
pub mod Spend
pub mod Caps
pub mod Once
pub mod Ids
pub mod Paper
pub mod Simulation
pub mod Modes
pub mod Halt
pub mod Ending
pub mod Lost
pub mod Samples
mod Tests
