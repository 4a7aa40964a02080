-- ===== src/Corpus/Sharded.antt =====
-- crates/lsf-engine/src/dynamic_corpus.rs, `ShardedDiskCache`: a file for each tree, in one of 256
-- times 256 directories; and `SQLSaver`, which logs what it passes on. The file system is behind
-- `Disk`, whose directories and files are named by their shards and ids; a statement's text is that
-- of `Display`, and texts are lists of characters, given by numbers.
pub mod Shards
pub mod Saver
use ast_sqlite_test.Common.{
  ℕ, ◌+◌, ◌*◌, ◌/◌, ◌%◌, ◌≡◌, ◌↔◌, Bool, true, false, List, [], ◌∷◌, ◌++◌, Option, none, some, ◌==◌,
  ◌>>=◌, if◌then◌else◌,
}
use ast_sqlite_test.Common.Assoc.{mem}
use ast_sqlite_test.Core.Entry.{EntryId}
use ast_sqlite_test.Corpus.Storage.{StorageBackend}

abbrev pub Text : Type 0
Text = List ℕ

-- `& 0xFF` and `>> 8`
unfoldable pub id_to_shards : EntryId → ℕ × ℕ
id_to_shards id = (id % 256, (id / 256) % 256)

-- The index of the bit of a directory
unfoldable pub shard_index : EntryId → ℕ
shard_index id = let (shard1, shard2) = id_to_shards id in shard1 * 256 + shard2

-- A path is a directory and an id.
abbrev pub Place : Type 0
Place = (ℕ × ℕ) × EntryId

unfoldable pub path_from_id : EntryId → Place
path_from_id id = (id_to_shards id, id)

-- `create_dir_all` of a directory, a file opened by `create_new` and written, a file read, and
-- `remove_dir_all` of the directory of the cache. A file is not created where its directory is
-- missing or where there is one of its name.
pub record Disk : Type 1 where
  pub Files : Type 0
  pub has_shard : ℕ × ℕ → Files → Bool
  pub content : Place → Files → Option Text
  pub create_dir_all : ℕ × ℕ → Files → Files × Bool
  pub create_new : Place → Text → Files → Files × Bool
  pub remove_dir_all : Files → Files × Bool
  pub dir_made :
      (s : ℕ × ℕ) (f : Files)
      → (create_dir_all s f).1 ≡ true
      → has_shard s (create_dir_all s f).0 ≡ true
  pub dirs_kept :
      (s s' : ℕ × ℕ) (f : Files)
      → has_shard s' f ≡ true
      → has_shard s' (create_dir_all s f).0 ≡ true
  pub files_kept :
      (s : ℕ × ℕ) (p : Place) (f : Files) → content p (create_dir_all s f).0 ≡ content p f
  pub new_only :
      (p : Place) (t : Text) (f : Files)
      → (create_new p t f).1 ≡ true
      → (has_shard p.0 f ≡ true) × (content p f ≡ none)
  pub new_content :
      (p q : Place) (t : Text) (f : Files)
      → (create_new p t f).1 ≡ true
      → content q (create_new p t f).0 ≡ (if p.1 == q.1 then some t else content q f)
  pub new_dirs :
      (p : Place) (t : Text) (s : ℕ × ℕ) (f : Files)
      → has_shard s (create_new p t f).0 ≡ has_shard s f
  pub removed :
      (s : ℕ × ℕ) (f : Files)
      → (remove_dir_all f).1 ≡ true
      → has_shard s (remove_dir_all f).0 ≡ false

module _ {Statement : Type 0} (display : Statement → Text) where
  -- The statements, `;` between them
  unfoldable pub print_rest : List Statement → Text
  print_rest [] = []
  print_rest (stmt ∷ stmts) = 59 ∷ (display stmt ++ print_rest stmts)

  unfoldable pub print : List Statement → Text
  print [] = []
  print (stmt ∷ stmts) = display stmt ++ print_rest stmts

module _ (D : Disk) where
  pub record ShardedDiskCache : Type 0 where
    -- The indices of the bits that are set
    pub created_shards : List ℕ
    pub files : D.Files

  unfoldable pub ensure_dir_exists : EntryId → ShardedDiskCache → ShardedDiskCache × Bool
  ensure_dir_exists id c =
      if mem (shard_index id) c.created_shards
      then (c, true)
      else (let (files, made) = D.create_dir_all (id_to_shards id) c.files in
          if made
          then (record { created_shards = shard_index id ∷ c.created_shards; files = files }, true)
          else (record c { files = files }, false))

  -- `none` is the panic of `unwrap`.
  unfoldable pub clear : ShardedDiskCache → Option ShardedDiskCache
  clear c =
      let (files, gone) = D.remove_dir_all c.files in
      if gone then some (record c { files = files }) else none

  module _ {Statement : Type 0} (display : Statement → Text)
      (parse_sql : Text → Option (List Statement)) where
    unfoldable pub retrieve : EntryId → ShardedDiskCache → Option (List Statement)
    retrieve id c = D.content (path_from_id id) c.files >>= parse_sql

    unfoldable pub write : EntryId → List Statement → ShardedDiskCache → ShardedDiskCache × Bool
    write id ast c =
        let (c₁, ensured) = ensure_dir_exists id c in
        let (files, written) = D.create_new (path_from_id id) (print display ast) c₁.files in
        if ensured then (record c₁ { files = files }, written) else (c₁, false)

-- `SqlSaverCommand`
pub data SqlSaverCommand (A : Type 0) : Type 0 where
  write_command : A → SqlSaverCommand A
  clear_command : SqlSaverCommand A

-- What the thread of the saver makes of the log's trees: the trees that the file holds
unfoldable pub replay : {A : Type 0} → List (SqlSaverCommand A) → List A → List A
replay [] saved = saved
replay (write_command ast ∷ commands) saved = replay commands (saved ++ ast ∷ [])
replay (clear_command ∷ commands) saved = replay commands []

module _ {A : Type 0} (D : StorageBackend A) where
  pub record SqlSaver : Type 0 where
    pub backend : D.Backend
    -- What was sent to the thread, the oldest first
    pub sent : List (SqlSaverCommand A)

  unfoldable pub saver_retrieve : EntryId → SqlSaver → SqlSaver × Option A
  saver_retrieve id s =
      let (backend, found) = D.retrieve id s.backend in (record s { backend = backend }, found)

  unfoldable pub saver_write : EntryId → A → SqlSaver → SqlSaver × Bool
  saver_write id ast s =
      let (backend, written) = D.write id ast s.backend in
      (record { backend = backend; sent = s.sent ++ write_command ast ∷ [] }, written)

  unfoldable pub saver_clear : SqlSaver → SqlSaver
  saver_clear s = record { backend = D.clear s.backend; sent = s.sent ++ clear_command ∷ [] }

  abbrev pub sql_saver : StorageBackend A
  sql_saver = record {
    Backend = SqlSaver;
    retrieve = saver_retrieve;
    write = saver_write;
    clear = saver_clear;
  }
