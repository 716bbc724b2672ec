-- ===== src/Checks.antt =====
-- scripts/cpplint.py: checks of a file or of a line that apply one pattern or two. A check returns the
-- reports that it makes; `none` is the exception of an index out of range or of a missing match.
pub mod File
pub mod Line
pub mod Comment
pub mod Functions
pub mod Blank
pub mod Headers
pub mod Aligned
pub mod Spacing
pub mod Operators
pub mod Calls
pub mod Width
pub mod Access
pub mod AltTokens
pub mod Braces
pub mod Semicolons
pub mod Types
pub mod BraceSpacing
pub mod Macros
