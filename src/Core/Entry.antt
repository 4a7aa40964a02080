-- ===== src/Core/Entry.antt =====
-- crates/lsf-core/src/entry.rs: ids, measurements, raw entries and corpus entries. `Arc<AST>` is
-- the parameter `A`: the value of the tree where it is only read, a handle where sharing counts.
pub mod Ids
use ast_sqlite_test.Common.{ℕ, ◌+◌, ◌%◌, ◌^◌, Bool, List}

-- `ID`, by its `raw: u32`
abbrev pub EntryId : Type 0
EntryId = ℕ

abbrev pub u32_mod : ℕ
u32_mod = 2 ^ 32

-- `ID::next`: the new id, and the counter after `fetch_add`, which wraps
unfoldable pub next : ℕ → EntryId × ℕ
next current_id = (current_id, (current_id + 1) % u32_mod)

pub record Meta : Type 0 where
  pub triggers_bug : Bool
  pub is_valid_syntax : Bool
  pub exec_time : ℕ
  pub new_cov_nodes : ℕ
  pub query_size : ℕ

pub record RawEntry (A : Type 0) : Type 0 where
  pub id : EntryId
  pub parents : List EntryId
  pub ast : A

pub record CorpusEntry (A : Type 0) : Type 0 where
  pub raw : RawEntry A
  pub meta : Meta

module _ {A : Type 0} where
  -- `RawEntry::new`, with the counter of ids
  unfoldable pub new : A → List EntryId → ℕ → RawEntry A × ℕ
  new ast parents current_id =
      let (id, current_id') = next current_id in
      (record { id = id; parents = parents; ast = ast }, current_id')

  unfoldable pub from_components : EntryId → A → List EntryId → RawEntry A
  from_components id ast parents = record { id = id; parents = parents; ast = ast }

  unfoldable pub into_corpus_entry : RawEntry A → Meta → CorpusEntry A
  into_corpus_entry raw meta = record { raw = raw; meta = meta }
