-- ===== src/Corpus/Blob.antt =====
-- crates/lsf-engine/src/dynamic_corpus.rs, `BinaryBlob`: trees one after the other in one file,
-- found by offset and size. `to_allocvec` and `from_bytes` are postcard's, `write_all` appends to
-- the file (the bytes after it, and whether it went through); a byte is a number.
pub mod RoundTrip
use ast_sqlite_test.Common.{
  ℕ, ◌+◌, Bool, true, false, List, [], ◌∷◌, ◌++◌, Option, none, some, leb, if◌then◌else◌, ◌>>=◌,
  length, take, drop,
}
use ast_sqlite_test.Common.Assoc.{Assoc, lookup, insert}
use ast_sqlite_test.Core.Entry.{EntryId}

pub record FileSlot : Type 0 where
  pub offset : ℕ
  pub size : ℕ

pub record BinaryBlob : Type 0 where
  pub index : Assoc FileSlot
  pub file : List ℕ
  pub current_offset : ℕ

-- The file is opened to append, with what it holds.
unfoldable pub new : List ℕ → BinaryBlob
new existing = record { index = []; file = existing; current_offset = 0 }

-- `read_exact_at`
unfoldable pub read_exact_at : ℕ → ℕ → List ℕ → Option (List ℕ)
read_exact_at size offset file =
    if leb (offset + size) (length file) then some (take size (drop offset file)) else none

unfoldable pub clear : BinaryBlob → BinaryBlob
clear b = record { index = []; file = []; current_offset = 0 }

module _ {A : Type 0} (to_allocvec : A → Option (List ℕ)) (from_bytes : List ℕ → Option A)
    (write_all : List ℕ → List ℕ → List ℕ × Bool) where
  unfoldable pub retrieve : EntryId → BinaryBlob → Option A
  retrieve id b = elim (lookup id b.index) [
    | none ↦ none
    | some slot ↦ read_exact_at slot.size slot.offset b.file >>= from_bytes
  ]

  -- What is left of a write once the tree is in bytes.
  unfoldable pub append : EntryId → List ℕ → BinaryBlob → BinaryBlob × Bool
  append id bytes b =
      let (file, written) = write_all b.file bytes in
      if written
      then (
        record {
          index = insert id (record { offset = b.current_offset; size = length bytes }) b.index;
          file = file;
          current_offset = b.current_offset + length bytes;
        },
        true,
      )
      else (record b { file = file }, false)

  unfoldable pub write : EntryId → A → BinaryBlob → BinaryBlob × Bool
  write id ast b = elim (lookup id b.index) [
    | some slot ↦ (b, true)
    | none ↦ elim (to_allocvec ast) [ none ↦ (b, false) | some bytes ↦ append id bytes b ]
  ]
