-- ===== src/Tests/Cov.antt =====
-- A map of nine edges, one of them known, and the trace of a run that hits three; a table of
-- best entries for four edges.
use ast_sqlite_test.Common.{
  ◌⊎◌, ℕ, ◌<◌, ◌≡◌, ◌↔◌, refl, Bool, false, List, [], ◌∷◌, none, some, ltb, get_or, arith, ◌==◌,
  if◌then◌else◌,
}
use ast_sqlite_test.Cov.EdgeMap.{EdgeMap, update}
use ast_sqlite_test.Cov.EdgeMap.Bytewise.{update-merged}
use ast_sqlite_test.Cov.ScoredEdges.{
  ScoredEdges, score_of, update_if_best, ilog10, saturating_div, claim_edges, beats, saturating_mul,
  log10_floor,
}
use ast_sqlite_test.Cov.ScoredEdges.Best.{
  claimed, wins, update_if_best-Claims, update_if_best_panics,
}

abbrev one_known : EdgeMap
one_known = record { raw_map = 0 ∷ 1 ∷ 0 ∷ 0 ∷ 0 ∷ 0 ∷ 0 ∷ 0 ∷ 0 ∷ []; total_found = 1 }

abbrev three_hits : List ℕ
three_hits = 3 ∷ 1 ∷ 0 ∷ 0 ∷ 0 ∷ 0 ∷ 0 ∷ 0 ∷ 2 ∷ []

update-merged_example :
    update one_known three_hits
    ≡ some (
      record { raw_map = 1 ∷ 1 ∷ 0 ∷ 0 ∷ 0 ∷ 0 ∷ 0 ∷ 0 ∷ 1 ∷ []; total_found = 3 },
      record { new = 0 ∷ 8 ∷ []; all = 0 ∷ 1 ∷ 8 ∷ [] },
    )
update-merged_example = update-merged one_known three_hits refl

-- `ceil(ln(1 + n))` up to 7, and no less than it is beyond
abbrev ceil_ln : ℕ → ℕ
ceil_ln n = if n == 0 then 0 else if ltb n 2 then 1 else if ltb n 7 then 2 else n

ceil_ln_pos : (n : ℕ) → 0 < n → 0 < ceil_ln n
ceil_ln_pos n h = ground arith

abbrev best_of_four : ScoredEdges
best_of_four = record {
  best_entries =
      none ∷ some (record { id = 1; score = 4 }) ∷ some (record { id = 2; score = 50 }) ∷ none ∷ [];
}

update_if_best-Claims_example :
    (score : ℕ) × (s' : ScoredEdges) × (is_best : Bool) × (score_of ceil_ln 10 3 1000 ≡ some score)
    × (update_if_best ceil_ln best_of_four 7 10 3 1000 (0 ∷ 1 ∷ 2 ∷ []) ≡ some (s', is_best))
    × (is_best ≡ wins score (0 ∷ 1 ∷ 2 ∷ []) best_of_four.best_entries)
    × ((e : ℕ)
        → get_or s'.best_entries e none
          ≡ claimed 7 score (0 ∷ 1 ∷ 2 ∷ []) e (get_or best_of_four.best_entries e none))
update_if_best-Claims_example =
    update_if_best-Claims ceil_ln ceil_ln_pos best_of_four 7 10 3 1000 (0 ∷ 1 ∷ 2 ∷ [])
      (omega arith) refl (omega arith)

no_better :
    update_if_best ceil_ln best_of_four 7 10 2 1000 (1 ∷ 1 ∷ []) ≡ some (best_of_four, false)
unfolding update_if_best score_of ilog10 saturating_div claim_edges beats saturating_mul log10_floor
no_better = refl

update_if_best_panics_example :
    (update_if_best ceil_ln best_of_four 7 10 3 0 (0 ∷ 1 ∷ 2 ∷ []) ≡ none)
    ↔ ((◌≡◌ {A = ℕ} 0 0) ⊎ (◌≡◌ {A = ℕ} 3 0))
update_if_best_panics_example =
    update_if_best_panics ceil_ln ceil_ln_pos refl best_of_four 7 10 3 0 (0 ∷ 1 ∷ 2 ∷ []) refl
