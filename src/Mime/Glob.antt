-- ===== src/Mime/Glob.antt =====
-- src/mime/xdgmimeglob.c: file name patterns and the MIME types that they stand for.
pub mod Tree
pub mod Hash
pub mod Lines
