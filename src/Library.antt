-- ===== src/Library.antt =====
-- internal/library: the manifests of Steam, and the pool of games that the seats share.
pub mod Manifest
pub mod Folder
pub mod Pool
