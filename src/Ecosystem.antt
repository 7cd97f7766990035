-- ===== src/Ecosystem.antt =====
-- internal/ecosystem: how each registry's request paths map to packages and upstream URLs.
pub mod Package
pub mod Npm
pub mod Pypi
pub mod Maven
pub mod Metadata
pub mod GoMod
