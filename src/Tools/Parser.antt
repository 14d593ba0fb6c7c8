-- ===== src/Tools/Parser.antt =====
-- core/tools/dsl_parser.c: recursive descent over the lexer, from the expressions to the programs.
pub mod Functions
pub mod Sources
pub mod Chains
pub mod Programs
pub mod Total
pub mod Printer
pub mod ChainPrinter
pub mod RoundTrip
