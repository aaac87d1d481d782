-- ===== src/Restic.antt =====
-- restic/commands.go: what is known of the commands of restic and of their options, by version.
pub mod Versions
pub mod Known
pub mod Catalogue
pub mod Merging
pub mod Manual
pub mod Pages
