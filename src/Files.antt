-- ===== src/Files.antt =====
-- scripts/cpplint.py: the names of files, and what depends on the file system.
pub mod System
pub mod Info
pub mod Guard
