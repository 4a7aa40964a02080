-- ===== src/Corpus/Storage.antt =====
-- crates/lsf-engine/src/dynamic_corpus.rs, `StorageBackend`: the trait, and what the corpus asks
-- of an implementation of it.
use ast_sqlite_test.Common.{◌≡◌, Bool, true, Option, some, ◌==◌, if◌then◌else◌}
use ast_sqlite_test.Core.Entry.{EntryId}

-- `io::Result` is an `Option` for a value and a `Bool` for `()`.
pub record StorageBackend (A : Type 0) : Type 1 where
  pub Backend : Type 0
  pub retrieve : EntryId → Backend → Backend × Option A
  pub write : EntryId → A → Backend → Backend × Bool
  pub clear : Backend → Backend

-- A backend that writes without error, again at an id that it holds too, and reads back what
-- was written last.
pub record IsReliable {A : Type 0} (D : StorageBackend A) : Type 1 where
  pub stored : EntryId → D.Backend → Option A
  pub write_ok : (k : EntryId) (a : A) (b : D.Backend) → (D.write k a b).1 ≡ true
  pub stored-write :
      (k j : EntryId) (a : A) (b : D.Backend)
      → stored j (D.write k a b).0 ≡ (if k == j then some a else stored j b)
  pub retrieve_stored : (k : EntryId) (b : D.Backend) → (D.retrieve k b).1 ≡ stored k b
  pub stored-retrieve : (k j : EntryId) (b : D.Backend) → stored j (D.retrieve k b).0 ≡ stored j b
