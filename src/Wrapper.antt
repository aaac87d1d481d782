-- ===== src/Wrapper.antt =====
-- wrapper.go: the run of a profile, as the sequence of what it does. The environment (the commands
-- that it starts, the clock, the source of standard input) answers each step by the history so far.
pub mod Settings
pub mod Retry
pub mod Commands
pub mod Profile
pub mod Arguments
