-- ===== src/Extern/Concrete.antt =====
-- One implementation of each library's record, to run the model on concrete inputs.
pub mod Tokenizer
pub mod TreeDb
pub mod Document
