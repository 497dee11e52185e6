-- ===== src/Readline.antt =====
-- crates/sys/readline: the line that is being edited, and the history of lines.
pub mod Buffer
pub mod History
