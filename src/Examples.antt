-- ===== src/Examples.antt =====
-- Runs of the model on concrete inputs, with the tokenizer and the database of Extern/Concrete.
mod Data
mod Links
mod Keys
mod Calls
mod Moves
mod Records
mod Work
mod Objects
mod Tree
mod Things
mod Updates
mod Forms
mod Clients
mod Codes
mod System
mod Remote
mod Creation
mod Loads
