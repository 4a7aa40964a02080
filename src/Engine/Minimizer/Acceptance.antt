-- ===== src/Engine/Minimizer/Acceptance.antt =====
-- What `on_add` decides.
use ast_sqlite_test.Common.{
  ℕ, ◌<◌, ◌≡◌, refl, Bool, true, false, not, ◌&&◌, ◌||◌, List, [], ◌∷◌, Option, some, ltb,
  if◌then◌else◌, length, arith, Option-cases, Bool-cases, inl, inr,
}
use ast_sqlite_test.Core.Entry.{EntryId}
use ast_sqlite_test.Cov.EdgeMap.{EdgesFound}
use ast_sqlite_test.Cov.ScoredEdges.{ScoredEdges, update_if_best, score_of}
use ast_sqlite_test.Cov.ScoredEdges.Best.{
  in_range, wins, update_if_best-Claims, update_if_best_idle,
}
use ast_sqlite_test.Engine.Diversity.{try_insert}
use ast_sqlite_test.Engine.Minimizer.{GreedyCoverage, on_add, is_empty}
use ast_sqlite_test.Feedback.Outcome.{
  TestOutcome, RejectionReason, rejected, accepted, bad, cov_increase, is_diverse,
}

module _ {Stmt : Type 0} (hash_feature : Stmt → ℕ) (ceil_ln_1p : ℕ → ℕ)
    (ceil_ln_1p_pos : (n : ℕ) → 0 < n → 0 < ceil_ln_1p n) (g : GreedyCoverage) (id : EntryId)
    (ast : List Stmt) (exec_time new_cov_nodes : ℕ) (found : EdgesFound)
    (known : in_range (length g.best_edges.best_entries) found.all ≡ true) where
  abbrev pub diverse : Bool
  diverse = (try_insert hash_feature g.diversity id ast).1

  abbrev scoring : Option (ScoredEdges × Bool)
  scoring =
      update_if_best ceil_ln_1p g.best_edges id (length ast) (length found.all) exec_time found.all

  similar_keeps : diverse ≡ false → (try_insert hash_feature g.diversity id ast).0 ≡ g.diversity
  unfolding try_insert
  similar_keeps e = ground arith

  some_hit : is_empty found.all ≡ false → 0 < length found.all
  some_hit e = go found.all e
    where
      go : (l : List ℕ) → is_empty l ≡ false → 0 < length l
      go [] h = cc
      go (x ∷ xs) h = omega arith

  -- A result that is turned away leaves the minimizer as it was: best entries, window and
  -- rotation.
  pub on_add_rejected :
      (g' : GreedyCoverage) (r : RejectionReason)
      → on_add hash_feature ceil_ln_1p g id ast exec_time new_cov_nodes found
        ≡ some (g', rejected r)
      → g' ≡ g
  unfolding on_add
  on_add_rejected g' r h = elim (Bool-cases diverse) [
    | inl d ↦ absurd (ground arith)
    | inr d ↦
        let keeps = similar_keeps d in
        elim (Bool-cases (is_empty found.all)) [
          | inl e ↦ ground arith
          | inr e ↦ elim (Option-cases scoring) [
            | inl p ↦ absurd (ground arith)
            | inr ((s', b), p) ↦ elim (Bool-cases b) [
              | inl w ↦ absurd (ground arith)
              | inr l ↦
                  let same =
                    update_if_best_idle ceil_ln_1p ceil_ln_1p_pos g.best_edges id (length ast)
                      (length found.all) exec_time found.all (some_hit e) known s' (rw l at p) in
                  ground arith
            ]
          ]
        ]
  ]

  -- The outcome for a result that is, or is not, worth keeping.
  abbrev pub judged : Bool → TestOutcome
  judged worth =
      if worth
      then if not (is_empty found.all) && ltb 0 new_cov_nodes
        then accepted (cov_increase new_cov_nodes)
        else accepted is_diverse
      else rejected bad

  wins_nowhere :
      (l : List ℕ) (score : ℕ) → is_empty l ≡ true → wins score l g.best_edges.best_entries ≡ false
  wins_nowhere [] score e = refl
  wins_nowhere (x ∷ xs) score e = cc

  -- With a running time the outcome is settled: a result is kept exactly when its tree is
  -- unlike those in the window or its score beats the best one of an edge that it hits; it
  -- counts as a coverage increase exactly when it also hits an edge and found new ones.
  pub on_add_outcome :
      0 < exec_time
      → (score : ℕ) × (g' : GreedyCoverage) × (is_empty found.all ≡ false
          → score_of ceil_ln_1p (length ast) (length found.all) exec_time ≡ some score)
        × (on_add hash_feature ceil_ln_1p g id ast exec_time new_cov_nodes found
            ≡ some (g', judged (diverse || wins score found.all g.best_edges.best_entries)))
  unfolding on_add
  on_add_outcome ran = elim (Bool-cases (is_empty found.all)) [
    | inl e ↦ (
      0,
      record g { diversity = (try_insert hash_feature g.diversity id ast).0 },
      (λ n. cc),
      ground (arith, wins_nowhere found.all 0 e),
    )
    | inr e ↦
        let taken =
          update_if_best-Claims ceil_ln_1p ceil_ln_1p_pos g.best_edges id (length ast)
            (length found.all) exec_time found.all (some_hit e) known ran in
        (
          taken.0,
          record g {
            diversity = (try_insert hash_feature g.diversity id ast).0;
            best_edges = taken.1;
          },
          (λ _. taken.3),
          ground (arith, taken.4, taken.5),
        )
  ]
