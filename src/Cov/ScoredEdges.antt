-- ===== src/Cov/ScoredEdges.antt =====
-- crates/lsf-cov/src/bitmap.rs, `ScoredEdges`: for each edge the entry with the lowest score.
pub mod Best
use ast_sqlite_test.Common.{
  ℕ, zero, suc, ◌+◌, ◌-◌, ◌*◌, ◌/◌, ◌%◌, ◌^◌, min, Bool, true, false, List, [], ◌∷◌, Option, none,
  some, ltb, ◌==◌, if◌then◌else◌, ◌>>=◌, length, get_elem?, set, replicate,
}
use ast_sqlite_test.Core.Entry.{EntryId, u32_mod}

pub record ScoredEntry : Type 0 where
  pub id : EntryId
  pub score : ℕ

pub record ScoredEdges : Type 0 where
  pub best_entries : List (Option ScoredEntry)

unfoldable pub new : ℕ → ScoredEdges
new max_edges = record { best_entries = replicate max_edges none }

-- the ids of the entries that are best somewhere
unfoldable pub collect_ids : List (Option ScoredEntry) → List EntryId
collect_ids [] = []
collect_ids (none ∷ es) = collect_ids es
collect_ids (some e ∷ es) = e.id ∷ collect_ids es

unfoldable pub get_best_entries : ScoredEdges → List EntryId
get_best_entries s = collect_ids s.best_entries

-- `u32::ilog10`, which panics at 0. Ten rounds are enough below 2 ^ 32.
unfoldable pub log10_floor : ℕ → ℕ → ℕ
log10_floor zero n = 0
log10_floor (suc fuel) n =
    let more = suc (log10_floor fuel (n / 10)) in if ltb n 10 then 0 else more

unfoldable pub ilog10 : ℕ → Option ℕ
ilog10 n = if n == 0 then none else some (log10_floor 10 n)

abbrev pub u32_max : ℕ
u32_max = 2 ^ 32 - 1

unfoldable pub saturating_mul : ℕ → ℕ → ℕ
saturating_mul a b = min (a * b) u32_max

-- division of unsigned numbers, which panics at 0
unfoldable pub saturating_div : ℕ → ℕ → Option ℕ
saturating_div a b = if b == 0 then none else some (a / b)

-- `current_best.is_none() || score < current_best.unwrap().score`
unfoldable pub beats : ℕ → Option ScoredEntry → Bool
beats score none = true
beats score (some e) = ltb score e.score

-- The loop over the hit edges. An edge out of range panics.
unfoldable pub claim_edges :
    EntryId
    → ℕ
    → List ℕ
    → List (Option ScoredEntry)
    → Bool
    → Option (List (Option ScoredEntry) × Bool)
claim_edges id score [] best is_best = some (best, is_best)
claim_edges id score (edge ∷ edges) best is_best = elim (get_elem? best edge) [
  | none ↦ none
  | some current ↦
      claim_edges id score edges
        (if beats score current
          then set best edge (some (record { id = id; score = score }))
          else best)
        (if beats score current then true else is_best)
]

-- `ceil_ln_1p n` is `(n as f64).ln_1p().ceil() as u32`.
module _ (ceil_ln_1p : ℕ → ℕ) where
  unfoldable pub score_of : ℕ → ℕ → ℕ → Option ℕ
  score_of query_len hit_edges_len exec_time_ns = do
    digits ← ilog10 exec_time_ns
    saturating_div (saturating_mul digits (query_len % u32_mod)) (ceil_ln_1p hit_edges_len)

  unfoldable pub update_if_best :
      ScoredEdges → EntryId → ℕ → ℕ → ℕ → List ℕ → Option (ScoredEdges × Bool)
  update_if_best s id query_len hit_edges_len exec_time_ns hit_edges = do
    score ← score_of query_len hit_edges_len exec_time_ns
    (best, is_best) ← claim_edges id score hit_edges s.best_entries false
    some (record { best_entries = best }, is_best)
