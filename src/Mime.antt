-- ===== src/Mime.antt =====
-- src/mime: the shared MIME-info database, read from its text files.
pub mod Unicode
pub mod Glob
pub mod Magic
pub mod Table
pub mod Parents
pub mod Subclass
pub mod Watch
pub mod Database
pub mod Cache
pub mod Callbacks
