-- ===== src/Expression.antt =====
-- validation/expression: the expression engine, its values, cache, tokenizer and parser.
pub mod Value
pub mod Cache
pub mod Tokens
pub mod Parser
pub mod Validate
pub mod Evaluate
mod Tests
