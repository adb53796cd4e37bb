-- ===== src/Flow.antt =====
-- A transaction through both handlers of x/feemarket: the fee that `AnteHandle` (ante/fee.go) has escrowed,
-- and what `PostHandle` (post/fee.go) does with it.
pub mod Split
pub mod Collector
pub mod Stranded
