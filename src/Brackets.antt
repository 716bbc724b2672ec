-- ===== src/Brackets.antt =====
-- scripts/cpplint.py: `FindEndOfExpressionInLine`, `CloseExpression`,
-- `FindStartOfExpressionInLine` and `ReverseCloseExpression`, which match brackets across lines.
-- A position -1 and a stack `None` are constructors here.
pub mod Text
pub mod Forward
pub mod Backward
