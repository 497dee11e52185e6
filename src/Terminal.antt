-- ===== src/Terminal.antt =====
-- crates/sys/terminal/src: the parser of escape sequences that the terminal is driven by.
pub mod Parser
