-- ===== src/Math.antt =====
-- ytlib/math: sorts and searches, BigNum, LoopTool and the numbers of arrangements.
pub mod Sort
pub mod BigNum
pub mod LoopTool
pub mod MathUtil
