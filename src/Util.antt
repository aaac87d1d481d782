-- ===== src/Util.antt =====
-- util/: the small helpers of the other packages.
pub mod Collect
