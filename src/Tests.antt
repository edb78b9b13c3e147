-- ===== src/Tests.antt =====
-- The theorems at concrete inputs, and runs of the model.
mod Keys
mod Protocol
mod Databases
mod Hashes
mod Sets
mod Elements
mod Bytes
mod Texts
mod Transactions
mod Ranks
mod Dumps
