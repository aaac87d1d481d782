-- ===== src/Mixins.antt =====
-- config/config_mixins.go: parts of a configuration that are used in several places.
pub mod Expansion
pub mod Tree
pub mod Variables
pub mod Appending
