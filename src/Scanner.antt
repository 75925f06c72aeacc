-- ===== src/Scanner.antt =====
-- The scanner (src/scanner.c): from the characters of a line to its tokens.
pub mod Chars
pub mod Magic
pub mod Tokens
pub mod Operand
pub mod Lines
pub mod Tokenize
