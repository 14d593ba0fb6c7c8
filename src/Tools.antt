-- ===== src/Tools.antt =====
-- core/tools: the compiler of the pipeline language, from the text of a program to the backend of
-- each of its chains.
pub mod Ast
pub mod Registry
pub mod Lexer
pub mod Reader
pub mod Parser
pub mod Lowering
pub mod Plan
pub mod Compile
pub mod Tests
