-- ===== src/Engine/Fuzz/Commits.antt =====
-- What a test result does to the engine.
use ast_sqlite_test.Common.{
  ℕ, ◌+◌, ◌<◌, ◌≡◌, refl, Bool, true, false, some, length, all, arith, ltb, get_or, ◌||◌,
}
use ast_sqlite_test.Core.Entry.{Meta, RawEntry, CorpusEntry, into_corpus_entry}
use ast_sqlite_test.Cov.EdgeMap.{EdgesFound}
use ast_sqlite_test.Cov.EdgeMap.Bytewise.{new_from, all_from, merged, update-merged}
use ast_sqlite_test.Cov.EdgeMap.Coverage.{IsConsistent, covered-merged, get_or-merged}
use ast_sqlite_test.Cov.Tokens.{IpcToken, send}
use ast_sqlite_test.Cov.Tokens.Rounds.{ready, send_lem}
use ast_sqlite_test.Feedback.Outcome.{TestOutcome, rejected, accepted, mutated, noop, TestableEntry}
use ast_sqlite_test.Engine.Traits.{CorpusHandler, Schedule, CorpusMinimizer, FeedbackHooks}
use ast_sqlite_test.Engine.Fuzz.{Engine, commit_test_result, commit_generation, keep, on_exec_each}

abbrev pub is_rejected : TestOutcome → Bool
is_rejected (rejected r) = true
is_rejected (accepted a) = false
is_rejected mutated = false
is_rejected noop = false

module _ {A Score R : Type 0} (K : CorpusHandler A Score) (S : Schedule A Score R K.Corpus)
    (G : CorpusMinimizer A K.Corpus S.Scheduler) (H : FeedbackHooks)
    (raw : TestableEntry (RawEntry A)) (meta : Meta) (shmem : IpcToken) (e : Engine K S G H)
    (same_size : length shmem.shmem ≡ length e.edge_map.raw_map) where
  -- The edges of the run, and the measurements with the count of the new ones.
  abbrev pub found_edges : EdgesFound
  found_edges = record {
    new = new_from 0 e.edge_map.raw_map shmem.shmem;
    all = all_from 0 shmem.shmem;
  }

  abbrev pub measured : Meta
  measured = record meta { new_cov_nodes = length found_edges.new }

  abbrev pub entered : CorpusEntry A
  entered = into_corpus_entry raw.entry measured

  abbrev pub met : G.Minimizer → TestOutcome → Engine K S G H
  met g outcome = record e {
    edge_map = record {
      raw_map = merged e.edge_map.raw_map shmem.shmem;
      total_found = e.edge_map.total_found + length found_edges.new;
    };
    shmem_queue = (send shmem e.shmem_queue).0;
    minimizer = g;
    heap = on_exec_each K S G H outcome measured raw.applied_rule_stats e.heap;
  }

  run_lem :
      (g : G.Minimizer) (outcome : TestOutcome)
      → G.on_add e.minimizer raw measured found_edges ≡ some (g, outcome)
      → commit_test_result K S G H raw meta shmem e
        ≡ some (keep K S G H outcome raw.entry measured (met g outcome))
  unfolding commit_test_result
  run_lem g outcome h = rw (update-merged e.edge_map shmem.shmem same_size) (rw h refl)

  -- When the minimizer turns the result away, corpus and scheduler stay as they were; when it
  -- does not, exactly one entry is told to the scheduler and put into the corpus with the
  -- scheduler's score, with the number of edges that no run had set before it among its
  -- measurements. In both cases the minimizer is the one after the decision.
  pub commit_test_result_enters :
      (g : G.Minimizer) (outcome : TestOutcome)
      → G.on_add e.minimizer raw measured found_edges ≡ some (g, outcome)
      → (e' : Engine K S G H) × (commit_test_result K S G H raw meta shmem e ≡ some e')
        × (e'.minimizer ≡ g)
        × (is_rejected outcome ≡ true → (e'.corpus ≡ e.corpus) × (e'.scheduler ≡ e.scheduler))
        × (is_rejected outcome ≡ false
            → (e'.scheduler ≡ (S.on_add entered e.scheduler).0)
              × (e'.corpus ≡ K.insert entered (S.on_add entered e.scheduler).1 e.corpus))
  unfolding keep commit_generation
  commit_test_result_enters g (rejected r) h =
      (_, run_lem g (rejected r) h, refl, (λ t. (refl, refl)), (λ f. absurd (ground (arith, f))))
  commit_test_result_enters g (accepted a) h =
      (_, run_lem g (accepted a) h, refl, (λ t. absurd (ground (arith, t))), (λ f. (refl, refl)))
  commit_test_result_enters g mutated h =
      (_, run_lem g mutated h, refl, (λ t. absurd (ground (arith, t))), (λ f. (refl, refl)))
  commit_test_result_enters g noop h =
      (_, run_lem g noop h, refl, (λ t. absurd (ground (arith, t))), (λ f. (refl, refl)))

  kept_map :
      (outcome : TestOutcome) (m : Meta) (e₁ : Engine K S G H)
      → ((keep K S G H outcome raw.entry m e₁).edge_map ≡ e₁.edge_map)
        × ((keep K S G H outcome raw.entry m e₁).shmem_queue ≡ e₁.shmem_queue)
  unfolding keep commit_generation
  kept_map (rejected r) m e₁ = (refl, refl)
  kept_map (accepted r) m e₁ = (refl, refl)
  kept_map mutated m e₁ = (refl, refl)
  kept_map noop m e₁ = (refl, refl)

  -- Whatever the minimizer decides, the count of found edges stays right, every edge of the run
  -- is set and every edge that was set stays so, and the token is back in the channel, which had
  -- room for it, wiped like the others.
  pub commit_test_result_keeps :
      (size : ℕ) (g : G.Minimizer) (outcome : TestOutcome)
      → IsConsistent e.edge_map
      → length e.shmem_queue.queue < e.shmem_queue.bound
      → e.shmem_queue.shmem_size ≡ size
      → all (ready size) e.shmem_queue.queue ≡ true
      → G.on_add e.minimizer raw measured found_edges ≡ some (g, outcome)
      → (e' : Engine K S G H) × (commit_test_result K S G H raw meta shmem e ≡ some e')
        × IsConsistent e'.edge_map
        × ((i : ℕ)
            → ltb 0 (get_or e'.edge_map.raw_map i 0)
              ≡ ltb 0 (get_or e.edge_map.raw_map i 0) || ltb 0 (get_or shmem.shmem i 0))
        × (length e'.shmem_queue.queue ≡ length e.shmem_queue.queue + 1)
        × (all (ready size) e'.shmem_queue.queue ≡ true)
  commit_test_result_keeps size g outcome consistent room wide clean h =
      let (same_map, same_queue) = kept_map outcome measured (met g outcome) in
      let (passed, longer, b, z, clean') =
        send_lem e.shmem_queue.bound size shmem e.shmem_queue room refl wide clean in
      (
        _,
        run_lem g outcome h,
        rw same_map (omega (arith, consistent, covered-merged 0 e.edge_map.raw_map shmem.shmem)),
        (λ i. rw same_map (get_or-merged e.edge_map.raw_map shmem.shmem i same_size)),
        rw same_queue longer,
        rw same_queue clean',
      )
