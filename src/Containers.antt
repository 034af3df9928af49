-- ===== src/Containers.antt =====
-- src/containers: the trees and lists that the other parts are built on.
pub mod Avl
pub mod Links
