-- ===== src/Tests/Fuzz.antt =====
-- An engine over the smallest parts: the corpus is a list of entries, the scheduler a list of the
-- ids that it was told, the minimizer keeps what found a new edge.
use ast_sqlite_test.Common.{
  ℕ, ◌+◌, ◌≤◌, ◌≡◌, refl, true, false, ◌||◌, List, [], ◌∷◌, none, some, ltb, ◌==◌, if◌then◌else◌,
  length, all, get_or, arith,
}
use ast_sqlite_test.Core.Entry.{EntryId, Meta, RawEntry, CorpusEntry, into_corpus_entry}
use ast_sqlite_test.Cov.EdgeMap.Coverage.{IsConsistent}
use ast_sqlite_test.Cov.Tokens.{IpcToken}
use ast_sqlite_test.Cov.Tokens.Rounds.{ready}
use ast_sqlite_test.Feedback.Outcome.{rejected, accepted, bad, cov_increase, TestableEntry}
use ast_sqlite_test.Engine.Traits.{CorpusHandler, Schedule, CorpusMinimizer, FeedbackHooks}
use ast_sqlite_test.Engine.Fuzz.{Breed, Engine, mutated_child, commit_test_result, breed_batch}
use ast_sqlite_test.Engine.Fuzz.Commits.{
  entered, commit_test_result_enters, commit_test_result_keeps,
}
use ast_sqlite_test.Engine.Fuzz.Batches.{Ascend, breed_batch_ids}

abbrev list_corpus : CorpusHandler ℕ ℕ
list_corpus = record {
  Corpus = List (CorpusEntry ℕ);
  get = λ id c. (c, none);
  insert = λ e score c. e ∷ c;
  resize = λ c. c;
  ids = λ c. [];
  clear = λ c. [];
  size = λ c. length c;
}

abbrev told_ids : Schedule ℕ ℕ ℕ (List (CorpusEntry ℕ))
told_ids = record {
  Scheduler = List EntryId;
  next_batch = λ c n r s. ([], c, r, s);
  on_add = λ e s. (e.raw.id ∷ s, 3);
  chore = λ s. s;
  reset = λ s. [];
}

abbrev new_edges_only : CorpusMinimizer ℕ (List (CorpusEntry ℕ)) (List EntryId)
new_edges_only = record {
  Minimizer = ℕ;
  minimize = λ g c s. (g, c, s);
  on_add = λ g e m found. some (
    g + 1,
    if m.new_cov_nodes == 0 then rejected bad else accepted (cov_increase m.new_cov_nodes),
  );
  reset = λ g. 0;
}

abbrev no_hooks : FeedbackHooks
no_hooks = record { Heap = ℕ; on_exec = λ o m h heap. heap + 1; tick = λ heap. heap }

abbrev small_engine : Engine list_corpus told_ids new_edges_only no_hooks
small_engine = record {
  corpus = [];
  shmem_queue = record { queue = []; bound = 1; shmem_size = 3 };
  scheduler = [];
  strategies = [];
  minimizer = 0;
  rng = 0;
  heap = 0;
  edge_map = record { raw_map = 0 ∷ 1 ∷ 0 ∷ []; total_found = 1 };
  size_at_last_reset = 0;
}

abbrev tried : TestableEntry (RawEntry ℕ)
tried = record {
  entry = record { id = 12; parents = []; ast = 99 };
  applied_rule_stats = 0 ∷ [];
  parent_stats = [];
}

abbrev unmeasured : Meta
unmeasured = record {
  triggers_bug = false;
  is_valid_syntax = true;
  exec_time = 10;
  new_cov_nodes = 0;
  query_size = 2;
}

abbrev trace : IpcToken
trace = record { id = 0; shmem = 0 ∷ 2 ∷ 1 ∷ [] }

commit_test_result_enters_example :
    (e' : Engine list_corpus told_ids new_edges_only no_hooks) × (commit_test_result list_corpus
        told_ids new_edges_only no_hooks tried unmeasured trace small_engine
      ≡ some e')
    × (e'.minimizer ≡ 1)
    × (false ≡ true → (e'.corpus ≡ small_engine.corpus) × (e'.scheduler ≡ small_engine.scheduler))
    × (false ≡ false
        → (e'.scheduler ≡ 12 ∷ [])
          × (e'.corpus
              ≡ entered list_corpus told_ids new_edges_only no_hooks tried unmeasured trace
                  small_engine refl
                ∷ []))
unfolding into_corpus_entry
commit_test_result_enters_example =
    commit_test_result_enters list_corpus told_ids new_edges_only no_hooks tried unmeasured trace
      small_engine refl 1 (accepted (cov_increase 1)) refl

commit_test_result_keeps_example :
    (e' : Engine list_corpus told_ids new_edges_only no_hooks) × (commit_test_result list_corpus
        told_ids new_edges_only no_hooks tried unmeasured trace small_engine
      ≡ some e')
    × IsConsistent e'.edge_map
    × ((i : ℕ)
        → ltb 0 (get_or e'.edge_map.raw_map i 0)
          ≡ ltb 0 (get_or small_engine.edge_map.raw_map i 0) || ltb 0 (get_or trace.shmem i 0))
    × (length e'.shmem_queue.queue ≡ 0 + 1)
    × (all (ready 3) e'.shmem_queue.queue ≡ true)
commit_test_result_keeps_example =
    commit_test_result_keeps list_corpus told_ids new_edges_only no_hooks tried unmeasured trace
      small_engine refl 3 1 (accepted (cov_increase 1)) refl (omega arith) refl refl refl

abbrev add_one : Breed list_corpus told_ids new_edges_only no_hooks
add_one child batch rng = (
  record child { entry = record (child.entry) { ast = child.entry.ast + 1 } },
  rng,
  some mutated_child,
)

breed_batch_ids_example :
    (length
        (breed_batch list_corpus told_ids new_edges_only no_hooks
          (add_one ∷ [])
          (tried ∷ [])
          (tried ∷ tried ∷ [])
          0
          40).0
      ≤ 2)
    × Ascend list_corpus told_ids new_edges_only no_hooks 40
        (breed_batch list_corpus told_ids new_edges_only no_hooks
          (add_one ∷ [])
          (tried ∷ [])
          (tried ∷ tried ∷ [])
          0
          40).0
    × ((breed_batch list_corpus told_ids new_edges_only no_hooks
          (add_one ∷ [])
          (tried ∷ [])
          (tried ∷ tried ∷ [])
          0
          40).2
        ≡ 42)
breed_batch_ids_example =
    breed_batch_ids list_corpus told_ids new_edges_only no_hooks (add_one ∷ []) (tried ∷ [])
      (tried ∷ tried ∷ []) 0 40 ((λ child batch rng. refl), tt) (omega arith)
