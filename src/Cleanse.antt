-- ===== src/Cleanse.antt =====
-- scripts/cpplint.py, from `IsCppString` to the class `CleansedLines`: comments, strings and raw
-- strings are taken out of the lines before the checks read them.
pub mod RawStrings
pub mod MultiLine
pub mod Comments
pub mod Collapse
pub mod Lines
