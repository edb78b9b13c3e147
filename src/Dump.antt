-- ===== src/Dump.antt =====
-- `PDBSaver` and `PDBLoader` of src/db.h and src/db.cc: the dump file. What the code calls of other
-- libraries is a record of operations. A byte is a number below 256.
pub mod Input
pub mod Number
pub mod Save
pub mod Load
mod Words
mod Short
mod Special
pub mod Packed
pub mod Texts
pub mod Objects
pub mod Kept
pub mod File
pub mod Shrinks
pub mod Ends
pub mod Replay
pub mod Stored
pub mod Whole
pub mod Total
pub mod Reload
pub mod Effects
pub mod Written
pub mod Restored
pub mod Copied
pub mod Restart
use pika_panlei.Base.{ℕ, ℤ, Bool, Option, List, PString}
use pika_panlei.SortedSet.{Doubles}

-- `ZipListElement`: the bytes that `sval` points to, or `lval` if `sval` is null.
pub data Element : Type 0 where
  text : PString → Element
  number : ℤ → Element

-- `isnan`, `isfinite`, `%.6g`, `operator>>` and the constants of C++; `lzf_compress` into a buffer of
-- the given size, with no byte if it does not fit, and `lzf_decompress` to the given size, unless it
-- fails; the elements of a ziplist, `none` where `ziplistGet` fails, and those of an intset; `crc64`.
pub record Codecs (S : Type 0) : Type 0 where
  pub doubles : Doubles S
  pub is_nan : S → Bool
  pub is_finite : S → Bool
  pub print : S → PString
  pub read : PString → S
  pub not_a_number : S
  pub infinity : S
  pub compress : PString → ℕ → PString
  pub decompress : PString → ℕ → Option PString
  pub ziplist : PString → Option (List Element)
  pub intset : PString → List ℤ
  pub crc64 : PString → ℕ
