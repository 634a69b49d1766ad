-- ===== src/Asm.antt =====
-- The assembler, assembler/ of the repository.
pub mod Object
pub mod Preprocess
pub mod Operands
pub mod Symbols
pub mod Lexer
pub mod Eval
pub mod Words
pub mod Encoder
pub mod Stream
pub mod Strtok
pub mod Outcome
pub mod Tables
pub mod Directives
pub mod Names
pub mod Labels
pub mod Instructions
pub mod FirstPass
pub mod SecondPass
pub mod Program
