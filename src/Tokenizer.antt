-- ===== src/Tokenizer.antt =====
-- src/tokenizer.cpp: the byte-pair tokenizer. A text is the list of its bytes.
pub mod Utf8
pub mod Pieces
pub mod Bpe
pub mod Encode
pub mod Tests
