-- ===== src/Shell.antt =====
-- The shell with pipelines, bash/pipe: its tokenizer, its syntax check and its commands.
pub mod Lexer
pub mod Syntax
pub mod Exec
mod Tests
