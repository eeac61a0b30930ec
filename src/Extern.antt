-- ===== src/Extern.antt =====
-- The libraries that the program calls, each as a record of its operations and of the documented
-- behaviour that the program relies on. Nothing of them is defined here: the modules that use them
-- take such a record, and the children Tokens, TreeDb and Json of Extern/Concrete give one each.
pub mod Boost
pub mod Kyoto
pub mod Json
pub mod Uuid
pub mod Concrete
