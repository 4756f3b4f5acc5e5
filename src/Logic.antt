-- ===== src/Logic.antt =====
-- ytlib/logic: the calculator of Boolean expressions.
pub mod BoolExpression
