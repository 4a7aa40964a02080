-- ===== src/Tests/Sharded.antt =====
-- A file system in memory, and runs of the sharded cache on it.
use ast_sqlite_test.Common.{
  ℕ, ◌+◌, ◌*◌, ◌≡◌, ◌≢◌, ◌⊎◌, refl, Bool, true, false, ◌&&◌, not, List, [], ◌∷◌, Option, none, some,
  ◌==◌, if◌then◌else◌, is_some, arith,
}
use ast_sqlite_test.Common.Assoc.{Assoc, mem, lookup, insert, lookup-insert}
use ast_sqlite_test.Core.Entry.{EntryId}
use ast_sqlite_test.Corpus.Memory.{in_memory}
use ast_sqlite_test.Corpus.Sharded.{
  Text, Place, Disk, print, print_rest, ShardedDiskCache, id_to_shards, shard_index, path_from_id,
  clear, retrieve, write, sql_saver, SqlSaver, write_command, replay,
}
use ast_sqlite_test.Corpus.Sharded.Shards.{IsSynced, write_lasts, write_cleared}
use ast_sqlite_test.Corpus.Sharded.Saver.{Request, ask, save, wipe, serve_all, sql_saver_serves}

-- The directories, and the texts of the files
abbrev pub Files : Type 0
Files = List ℕ × Assoc Text

abbrev pub code : ℕ × ℕ → ℕ
code (a, b) = a * 256 + b

abbrev pub has_shard : ℕ × ℕ → Files → Bool
has_shard s f = mem (code s) f.0

abbrev pub content : Place → Files → Option Text
content p f = lookup p.1 f.1

abbrev pub create_new : Place → Text → Files → Files × Bool
create_new p t f =
    if has_shard p.0 f && not (is_some (content p f))
    then ((f.0, insert p.1 t f.1), true)
    else (f, false)

may_create :
    (p : Place) (t : Text) (f : Files)
    → (create_new p t f).1 ≡ true
    → (has_shard p.0 f ≡ true) × (content p f ≡ none)
may_create p t f h = ground (arith, h)

created :
    (p q : Place) (t : Text) (f : Files)
    → (create_new p t f).1 ≡ true
    → content q (create_new p t f).0 ≡ (if p.1 == q.1 then some t else content q f)
created p q t f h = ground (arith, h, lookup-insert p.1 q.1 t f.1)

dirs_of_new :
    (p : Place) (t : Text) (s : ℕ × ℕ) (f : Files)
    → has_shard s (create_new p t f).0 ≡ has_shard s f
dirs_of_new p t s f = ground arith

made_dir : (s : ℕ × ℕ) (f : Files) → has_shard s (code s ∷ f.0, f.1) ≡ true
made_dir s f = ground arith

other_dir :
    (s s' : ℕ × ℕ) (f : Files) → has_shard s' f ≡ true → has_shard s' (code s ∷ f.0, f.1) ≡ true
other_dir s s' f h = ground (arith, h)

abbrev tree : Disk
tree = record {
  Files = Files;
  has_shard = has_shard;
  content = content;
  create_dir_all = λ s f. ((code s ∷ f.0, f.1), true);
  create_new = create_new;
  remove_dir_all = λ f. (([], []), true);
  dir_made = λ s f h. made_dir s f;
  dirs_kept = other_dir;
  files_kept = λ s p f. refl;
  new_only = may_create;
  new_content = created;
  new_dirs = dirs_of_new;
  removed = λ s f h. refl;
}

-- A statement is a character; `parse` reads them between semicolons.
abbrev letter : ℕ → Text
letter stmt = stmt ∷ []

abbrev parse : Text → Option (List ℕ)
parse [] = some []
parse (c ∷ []) = some (c ∷ [])
parse (c ∷ sep ∷ cs) = elim (parse cs) [ none ↦ none | some stmts ↦ some (c ∷ stmts) ]

abbrev empty_cache : ShardedDiskCache tree
empty_cache = record { created_shards = []; files = ([], []) }

empty_cache-IsSynced : IsSynced tree empty_cache
empty_cache-IsSynced id m = ground (arith, m)

room :
    (p : Place) (t : Text) (f : Files)
    → has_shard p.0 f ≡ true
    → content p f ≡ none
    → (create_new p t f).1 ≡ true
room p t f h k = ground (arith, h, k)

write_lasts_example :
    IsSynced tree (write tree letter parse 700 (65 ∷ 66 ∷ []) empty_cache).0
    × (((content (path_from_id 700) empty_cache.files ≡ none)
          × ((write tree letter parse 700 (65 ∷ 66 ∷ []) empty_cache).1 ≡ true)
          × ((j : EntryId)
              → retrieve tree letter parse j
                  (write tree letter parse 700 (65 ∷ 66 ∷ []) empty_cache).0
                ≡ (if 700 == j
                    then some (65 ∷ 66 ∷ [])
                    else retrieve tree letter parse j empty_cache))
          × ((write tree letter parse 700
                (67 ∷ [])
                (write tree letter parse 700 (65 ∷ 66 ∷ []) empty_cache).0).1
              ≡ false))
        ⊎ ((content (path_from_id 700) empty_cache.files ≢ none)
            × ((write tree letter parse 700 (65 ∷ 66 ∷ []) empty_cache).1 ≡ false)))
unfolding print print_rest
write_lasts_example =
    write_lasts tree letter parse (λ s f. refl) room 700 (65 ∷ 66 ∷ []) (67 ∷ []) empty_cache refl
      empty_cache-IsSynced

-- The directory of the id 700 was made.
abbrev used_cache : ShardedDiskCache tree
used_cache = record { created_shards = 48130 ∷ []; files = (48130 ∷ [], []) }

write_cleared_example :
    (write tree letter parse 700
      (65 ∷ [])
      (record { created_shards = 48130 ∷ []; files = ([], []) })).1
    ≡ false
unfolding shard_index id_to_shards clear
write_cleared_example =
    write_cleared tree letter parse 700 (65 ∷ []) used_cache
      (record { created_shards = 48130 ∷ []; files = ([], []) }) refl refl

-- A saver that has logged one tree; the requests clear it.
abbrev one_sent : SqlSaver (in_memory ℕ)
one_sent = record { backend = record { inner = [] }; sent = write_command 9 ∷ [] }

abbrev some_requests : List (Request ℕ)
some_requests = save 1 5 ∷ ask 1 ∷ wipe ∷ save 2 6 ∷ save 3 7 ∷ ask 1 ∷ []

sql_saver_serves_example :
    ((serve_all (sql_saver (in_memory ℕ)) some_requests one_sent).1
      ≡ (serve_all (in_memory ℕ) some_requests (record { inner = [] })).1)
    × ((serve_all (sql_saver (in_memory ℕ)) some_requests one_sent).0.backend
        ≡ (serve_all (in_memory ℕ) some_requests (record { inner = [] })).0)
    × (replay (serve_all (sql_saver (in_memory ℕ)) some_requests one_sent).0.sent [] ≡ 6 ∷ 7 ∷ [])
sql_saver_serves_example = sql_saver_serves (in_memory ℕ) some_requests one_sent
