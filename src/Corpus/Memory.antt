-- ===== src/Corpus/Memory.antt =====
-- crates/lsf-engine/src/dynamic_corpus.rs, `InMemory`: a map that serves as a corpus, and as the
-- backend of another one. `io::Error` carries no more than that there was none.
use ast_sqlite_test.Common.{ℕ, refl, Bool, true, List, [], Option, length}
use ast_sqlite_test.Common.Assoc.{Assoc, lookup, insert, remove, keys, lookup-insert}
use ast_sqlite_test.Core.Entry.{EntryId, CorpusEntry}
use ast_sqlite_test.Corpus.Storage.{StorageBackend, IsReliable}

pub record InMemory (T : Type 0) : Type 0 where
  pub inner : Assoc T

module _ {T : Type 0} where
  unfoldable pub new : InMemory T
  new = record { inner = [] }

  unfoldable pub retrieve : EntryId → InMemory T → InMemory T × Option T
  retrieve id m = (m, lookup id m.inner)

  unfoldable pub write : EntryId → T → InMemory T → InMemory T × Bool
  write id ast m = (record { inner = insert id ast m.inner }, true)

  unfoldable pub clear : InMemory T → InMemory T
  clear m = record { inner = [] }

  unfoldable pub remove_entry : EntryId → InMemory T → InMemory T
  remove_entry id m = record { inner = remove id m.inner }

  unfoldable pub size : InMemory T → ℕ
  size m = length m.inner

  unfoldable pub ids : InMemory T → List EntryId
  ids m = keys m.inner

  -- `protected_ids` of this corpus: none.
  unfoldable pub protected_ids : InMemory T → List EntryId
  protected_ids m = []

module _ {A : Type 0} where
  unfoldable pub get : EntryId → InMemory (CorpusEntry A) → Option (CorpusEntry A)
  get id m = lookup id m.inner

  unfoldable pub insert_new :
      {Score : Type 0} → CorpusEntry A → Score → InMemory (CorpusEntry A) → InMemory (CorpusEntry A)
  insert_new e score m = record { inner = insert e.raw.id e m.inner }

  unfoldable pub update :
      {Score : Type 0} → EntryId → Score → InMemory (CorpusEntry A) → InMemory (CorpusEntry A)
  update id score m = m

  unfoldable pub resize : InMemory (CorpusEntry A) → InMemory (CorpusEntry A)
  resize m = m

abbrev pub in_memory : (A : Type 0) → StorageBackend A
in_memory A = record { Backend = InMemory A; retrieve = retrieve; write = write; clear = clear }

-- As a backend the map is what the corpus asks for: every write succeeds, a reading gives what
-- was written last, and disturbs nothing.
pub in_memory-IsReliable : (A : Type 0) → IsReliable (in_memory A)
unfolding retrieve write clear
in_memory-IsReliable A = record {
  stored = λ k m. lookup k m.inner;
  write_ok = λ k a m. refl;
  stored-write = λ k j a m. lookup-insert k j a m.inner;
  retrieve_stored = λ k m. refl;
  stored-retrieve = λ k j m. refl;
}
