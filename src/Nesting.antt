-- ===== src/Nesting.antt =====
-- scripts/cpplint.py: the classes `_BlockInfo`, `_ExternCInfo`, `_ClassInfo`, `_NamespaceInfo`,
-- `_PreprocessorInfo` and `NestingState`, which follow the blocks of a file line by line.
pub mod Blocks
pub mod Ends
pub mod Template
pub mod Preprocessor
pub mod Update
pub mod File
pub mod Indentation
