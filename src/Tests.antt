-- ===== src/Tests.antt =====
-- The theorems at concrete inputs: environments, texts, patterns, rules, files and tables.
mod Directories
mod Texts
mod Globs
mod Magics
mod Files
mod Tables
mod Trees
mod Types
mod Caches
mod Databases
mod Reloads
mod Icons
mod Items
