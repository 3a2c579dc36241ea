-- ===== src/Article.antt =====
-- internal/handlers/articleanalysis: the text analysis and its handler.
pub mod Text
pub mod Words
pub mod Pieces
pub mod Tokens
pub mod Sentences
pub mod Paragraphs
pub mod Language
pub mod Picks
pub mod Votes
pub mod Graph
pub mod Ranking
pub mod Keywords
pub mod Summary
pub mod Places
pub mod Excerpt
pub mod Handle
pub mod Answers
mod Samples
