-- ===== src/Data.antt =====
-- How recorded episodes and runs become partitions (stpd/data, stpd/fullrun, stpd/game_seed.py).
pub mod Splits
pub mod WholeRuns
pub mod Covers
pub mod Seeds
