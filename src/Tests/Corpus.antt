-- ===== src/Tests/Corpus.antt =====
-- A corpus over the lists of Tests/Containers.antt and the memory as backend: three entries, the
-- hot cache small.
use ast_sqlite_test.Common.{
  ℕ, ◌+◌, ◌≡◌, refl, true, false, List, [], ◌∷◌, Option, some, ◌==◌, if◌then◌else◌, ◌*◌, drop, ltb,
  arith,
}
use ast_sqlite_test.Core.Entry.{EntryId, Meta, CorpusEntry}
use ast_sqlite_test.Corpus.Memory.{InMemory, in_memory, in_memory-IsReliable}
use ast_sqlite_test.Corpus.Memory as Memory
use ast_sqlite_test.Corpus.Dynamic as Dynamic
use ast_sqlite_test.Corpus.Dynamic.{DynamicCorpus, EntryData, disk, size}
use ast_sqlite_test.Common.Assoc.{Assoc, mem, keys}
use ast_sqlite_test.Corpus.Dynamic.Invariant.{view, IsValid}
use ast_sqlite_test.Corpus.Dynamic.Reads.{get-view}
use ast_sqlite_test.Corpus.Dynamic.Inserts.{insert-view}
use ast_sqlite_test.Corpus.Dynamic.Removal.{new-IsValid}
use ast_sqlite_test.Corpus.Dynamic.Protected.{
  protected_ids, protected_target, extend, by_score, place,
}
use ast_sqlite_test.Corpus.Dynamic.Protected.Highest.{protected_ids_highest}
use ast_sqlite_test.Corpus.Refinement.{
  Request, insert, remove, get, update, resize, clear, run, serve_dynamic, serve_memory,
  run-refines, all_fresh,
}
use ast_sqlite_test.Tests.Containers.{index_map, score_queue}

abbrev Corpus : Type 0
Corpus = DynamicCorpus (index_map {V = ℕ}) score_queue (in_memory ℕ)

abbrev measured : Meta
measured = record {
  triggers_bug = false;
  is_valid_syntax = true;
  exec_time = 10;
  new_cov_nodes = 1;
  query_size = 2;
}

abbrev entry : EntryId → CorpusEntry ℕ
entry id = record { raw = record { id = id; parents = []; ast = id + 100 }; meta = measured }

abbrev empty_corpus : Corpus
empty_corpus = Dynamic.new index_map score_queue (in_memory ℕ) Memory.new

abbrev Valid : Corpus → Type 0
Valid c = IsValid index_map score_queue (in_memory ℕ) (in_memory-IsReliable ℕ) c

abbrev reading : EntryId → Corpus → Option (CorpusEntry ℕ)
reading k c = view index_map score_queue (in_memory ℕ) (in_memory-IsReliable ℕ) k c

empty_corpus-IsValid : Valid empty_corpus
empty_corpus-IsValid =
    new-IsValid index_map score_queue (in_memory ℕ) (in_memory-IsReliable ℕ) Memory.new

-- Entry 1 in flight.
abbrev one_entry : Corpus
one_entry = Dynamic.insert_new index_map score_queue (in_memory ℕ) (entry 1) 5 empty_corpus

insert-view_example :
    Valid one_entry
    × ((k : EntryId)
        → reading k one_entry ≡ (if 1 == k then some (entry 1) else reading k empty_corpus))
unfolding Dynamic.new
insert-view_example =
    insert-view index_map score_queue (in_memory ℕ) (in_memory-IsReliable ℕ) (entry 1) 5
      empty_corpus empty_corpus-IsValid refl

abbrev after_get : Corpus × Option (CorpusEntry ℕ)
after_get = Dynamic.get index_map score_queue (in_memory ℕ) 1 one_entry

get-view_example :
    (after_get.1 ≡ reading 1 one_entry)
    × Valid after_get.0
    × ((k : EntryId) → reading k after_get.0 ≡ reading k one_entry)
get-view_example =
    get-view index_map score_queue (in_memory ℕ) (in_memory-IsReliable ℕ) 1 one_entry
      insert-view_example.0

abbrev after_update : Corpus
after_update = Dynamic.update index_map score_queue (in_memory ℕ) 1 7 one_entry

abbrev after_remove : Corpus
after_remove = Dynamic.remove_entry index_map score_queue (in_memory ℕ) 1 one_entry

abbrev after_resize : Corpus
after_resize = Dynamic.resize index_map score_queue (in_memory ℕ) one_entry

-- Entry 1 is rescored until it leaves the flight, and removed.
abbrev requests : List (Request ℕ ℕ)
requests =
    insert (entry 1) 5
    ∷ insert (entry 2) 6
    ∷ update 1 7
    ∷ update 1 8
    ∷ get 1
    ∷ resize
    ∷ remove 1
    ∷ get 1
    ∷ get 2
    ∷ clear
    ∷ get 2
    ∷ []

run-refines_example :
    run (serve_dynamic index_map score_queue (in_memory ℕ)) requests empty_corpus
    ≡ run serve_memory requests Memory.new
unfolding all_fresh serve_memory Memory.new Memory.insert_new Memory.update Memory.get Memory.resize
    Memory.remove_entry Memory.clear
run-refines_example =
    run-refines index_map score_queue (in_memory ℕ) (in_memory-IsReliable ℕ) Memory.new requests
      refl

-- Twenty entries on disk, the last two with the highest scores.
abbrev twenty : List ℕ
twenty =
    1 ∷ 2 ∷ 3 ∷ 4 ∷ 5 ∷ 6 ∷ 7 ∷ 8 ∷ 9 ∷ 10 ∷ 11 ∷ 12 ∷ 13 ∷ 14 ∷ 15 ∷ 16 ∷ 17 ∷ 18 ∷ 19 ∷ 20 ∷ []

abbrev on_disk : List ℕ → Assoc (EntryData ℕ)
on_disk [] = []
on_disk (id ∷ ids) =
    (id, record { parents = []; meta = measured; score = id * 3; cached = disk }) ∷ on_disk ids

abbrev twenty_entries : Corpus
twenty_entries = record {
  index = on_disk twenty;
  flying = index_map.empty;
  hot = [];
  hot_eviction = score_queue.empty;
  disk_cache = Memory.new;
  hot_cap = 100;
  cache_misses = 0;
  requests = 0;
}

three_highest :
    keys (drop 17 (by_score (index_map {V = ℕ}) score_queue (in_memory ℕ) (on_disk twenty)))
    ≡ 18 ∷ 19 ∷ 20 ∷ []
unfolding by_score place
three_highest = refl

flying_lem : (index_map {V = ℕ}).entries twenty_entries.flying ≡ []
flying_lem = (index_map {V = ℕ}).entries-empty

protected_19 : mem 19 (protected_ids index_map score_queue (in_memory ℕ) twenty_entries) ≡ true
unfolding protected_ids protected_target by_score place extend size
protected_19 = rw flying_lem refl

unprotected_2 : mem 2 (protected_ids index_map score_queue (in_memory ℕ) twenty_entries) ≡ false
unfolding protected_ids protected_target by_score place extend size
unprotected_2 = rw flying_lem refl

protected_ids_highest_example : ltb 57 6 ≡ false
protected_ids_highest_example =
    protected_ids_highest index_map score_queue (in_memory ℕ) (λ x y h. ground (arith, h))
      (λ x y z h h'. ground (arith, h, h')) twenty_entries 19 2
      (record { parents = []; meta = measured; score = 57; cached = disk })
      (record { parents = []; meta = measured; score = 6; cached = disk }) refl refl refl
      protected_19 (rw flying_lem refl) unprotected_2
