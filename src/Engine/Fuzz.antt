-- ===== src/Engine/Fuzz.antt =====
-- crates/lsf-engine/src/engine.rs, `Engine`, over the traits of Engine/Traits.antt. What it prints
-- is left out. `of_infinity` is `f64::INFINITY`.
pub mod Commits
pub mod Batches
use ast_sqlite_test.Common.{
  ℕ, zero, suc, ◌+◌, ◌-◌, ◌*◌, Bool, true, false, ◌&&◌, not, List, [], ◌∷◌, ◌++◌, Option, none,
  some, leb, ◌==◌, ◌>>=◌, if◌then◌else◌, length,
}
use ast_sqlite_test.Core.Entry.{EntryId, Meta, RawEntry, CorpusEntry, into_corpus_entry}
use ast_sqlite_test.Core.Entry as Entry
use ast_sqlite_test.Cov.EdgeMap.{EdgeMap, EdgesFound}
use ast_sqlite_test.Cov.EdgeMap as EdgeMap
use ast_sqlite_test.Cov.Tokens.{IpcToken, SharedMemHandle, send}
use ast_sqlite_test.Feedback.Outcome.{
  TestOutcome, rejected, accepted, mutated, noop, TestableEntry, Handle,
}
use ast_sqlite_test.Feedback.Outcome as Outcome
use ast_sqlite_test.Engine.Traits.{CorpusHandler, Schedule, CorpusMinimizer, FeedbackHooks}
pub use ast_sqlite_test.Mutate.Strategy.{MutationState, mutated_child, unchanged}

module _ {A Score R : Type 0} (K : CorpusHandler A Score) (S : Schedule A Score R K.Corpus)
    (G : CorpusMinimizer A K.Corpus S.Scheduler) (H : FeedbackHooks) where
  abbrev pub Child : Type 0
  Child = TestableEntry (RawEntry A)

  -- `MutationStrategy::breed`; `none` is an error.
  abbrev pub Breed : Type 0
  Breed = Child → List Child → R → Child × R × Option MutationState

  pub record Engine : Type 0 where
    pub corpus : K.Corpus
    pub shmem_queue : SharedMemHandle
    pub scheduler : S.Scheduler
    pub strategies : List Breed
    pub minimizer : G.Minimizer
    pub rng : R
    pub heap : H.Heap
    pub edge_map : EdgeMap
    pub size_at_last_reset : ℕ

  unfoldable pub on_exec_each : TestOutcome → Meta → List Handle → H.Heap → H.Heap
  on_exec_each outcome meta [] heap = heap
  on_exec_each outcome meta (hook ∷ hooks) heap =
      on_exec_each outcome meta hooks (H.on_exec outcome meta hook heap)

  unfoldable pub commit_generation : List (CorpusEntry A) → Engine → Engine
  commit_generation [] e = e
  commit_generation (entry ∷ members) e =
      let (scheduler, score) = S.on_add entry e.scheduler in
      commit_generation members
        (record e { scheduler = scheduler; corpus = K.insert entry score e.corpus })

  -- The outcome of a commit: a rejected result ends here.
  unfoldable pub keep : TestOutcome → RawEntry A → Meta → Engine → Engine
  keep (rejected r) raw meta e = e
  keep (accepted r) raw meta e = commit_generation (into_corpus_entry raw meta ∷ []) e
  keep mutated raw meta e = commit_generation (into_corpus_entry raw meta ∷ []) e
  keep noop raw meta e = commit_generation (into_corpus_entry raw meta ∷ []) e

  unfoldable pub commit_test_result : Child → Meta → IpcToken → Engine → Option Engine
  commit_test_result raw_entry meta shmem e = EdgeMap.update e.edge_map shmem.shmem >>= λ u.
      let measured : Meta = record meta { new_cov_nodes = length u.1.new } in
      G.on_add e.minimizer raw_entry measured u.1 >>= λ r.
      let e₁ : Engine = record e {
        edge_map = u.0;
        shmem_queue = (send shmem e.shmem_queue).0;
        minimizer = r.0;
        heap = on_exec_each r.1 measured raw_entry.applied_rule_stats e.heap;
      } in
      some (keep r.1 raw_entry.entry measured e₁)

  unfoldable pub return_token : IpcToken → Engine → Engine
  return_token token e = record e { shmem_queue = (send token e.shmem_queue).0 }

  unfoldable pub add_seeds : Score → List (CorpusEntry A) → Engine → Engine
  add_seeds of_infinity [] e = e
  add_seeds of_infinity (seed ∷ seeds) e = add_seeds of_infinity seeds (record e {
    scheduler = (S.on_add seed e.scheduler).0;
    corpus = K.insert seed of_infinity e.corpus;
  })

  -- `seed_gens` by the seeds that they obtain
  unfoldable pub populate : Score → List (List (CorpusEntry A)) → Engine → Engine
  populate of_infinity [] e = e
  populate of_infinity (seeds ∷ seed_gens) e =
      populate of_infinity seed_gens (add_seeds of_infinity seeds e)

  -- The loop over the strategies; the last argument is the state so far.
  unfoldable pub breed_all :
      List Breed → List Child → Child → R → MutationState → Child × R × MutationState
  breed_all [] batch child rng state = (child, rng, state)
  breed_all (breed ∷ strategies) batch child rng state =
      let (child', rng', result) = breed child batch rng in
      breed_all strategies batch child' rng'
        (elim result [ none ↦ state | some mutated_child ↦ mutated_child | some unchanged ↦ state ])

  -- A child before it is bred, with the id that it takes.
  unfoldable pub offspring : Child → ℕ → Child × ℕ
  offspring entry current_id =
      let (raw, current_id') = Entry.new entry.entry.ast (entry.entry.id ∷ []) current_id in
      (record (Outcome.new raw) { parent_stats = entry.applied_rule_stats }, current_id')

  -- The children of the entries of a batch; an unchanged one is dropped, and its id is spent.
  unfoldable pub breed_batch : List Breed → List Child → List Child → R → ℕ → List Child × R × ℕ
  breed_batch strategies batch [] rng current_id = ([], rng, current_id)
  breed_batch strategies batch (entry ∷ entries) rng current_id =
      let (child, current_id') = offspring entry current_id in
      let (bred, rng', state) = breed_all strategies batch child rng unchanged in
      let (rest, rng'', last_id) = breed_batch strategies batch entries rng' current_id' in
      (elim state [ mutated_child ↦ bred ∷ rest | unchanged ↦ rest ], rng'', last_id)

  unfoldable pub mutate_batch : ℕ → ℕ → Engine → List Child × Engine × ℕ
  mutate_batch batch_size current_id e =
      if batch_size == 0
      then ([], e, current_id)
      else (let (next_batch, corpus, rng, scheduler) =
            S.next_batch e.corpus batch_size e.rng e.scheduler in
          let (generation, rng', current_id') =
            breed_batch e.strategies next_batch next_batch rng current_id in
          (
            generation,
            record e { corpus = corpus; rng = rng'; scheduler = scheduler; heap = H.tick e.heap },
            current_id',
          ))

  -- `new_entries / size_at_last_reset >= 0.2`, with at least 100 new entries
  unfoldable pub gc_due : ℕ → ℕ → Bool
  gc_due new_entries size_at_last_reset =
      leb size_at_last_reset (5 * new_entries) && leb 100 new_entries

  unfoldable pub chore : Engine → Engine
  unfolding gc_due
  chore e =
      let e₁ : Engine = record e { corpus = K.resize e.corpus; scheduler = S.chore e.scheduler } in
      if gc_due (K.size e₁.corpus - e.size_at_last_reset) e.size_at_last_reset
      then (let (minimizer, corpus, scheduler) = G.minimize e₁.minimizer e₁.corpus e₁.scheduler in
          record e₁ {
            minimizer = minimizer;
            corpus = corpus;
            scheduler = scheduler;
            size_at_last_reset = K.size corpus;
          })
      else e₁

  unfoldable pub collect : List EntryId → K.Corpus → K.Corpus × List (CorpusEntry A)
  collect [] c = (c, [])
  collect (id ∷ ids) c =
      let (c₁, entry) = K.get id c in
      let (c₂, rest) = collect ids c₁ in
      (c₂, elim entry [ none ↦ rest | some found ↦ found ∷ rest ])

  unfoldable pub snapshot : Engine → Engine × List (CorpusEntry A)
  snapshot e =
      let (corpus, entries) = collect (K.ids e.corpus) e.corpus in
      (record e { corpus = corpus }, entries)

  unfoldable pub clear : Engine → Engine
  clear e = record e {
    corpus = K.clear e.corpus;
    minimizer = G.reset e.minimizer;
    scheduler = S.reset e.scheduler;
  }
