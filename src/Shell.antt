-- ===== src/Shell.antt =====
-- shell: the arguments given to restic and to the shell commands.
pub mod Arg
pub mod Args
