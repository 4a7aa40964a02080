-- ===== src/Tests/Engine.antt =====
-- The minimizer on a corpus of a few entries, and a wheel of four weights.
use ast_sqlite_test.Common.{
  get_elem?, length, ℕ, ◌*◌, ◌<◌, ◌≡◌, refl, false, not, ◌&&◌, ◌||◌, List, [], ◌∷◌, Option, none,
  some, arith, replicate,
}
use ast_sqlite_test.Common.Assoc.{Assoc, mem}
use ast_sqlite_test.Core.Entry.{EntryId}
use ast_sqlite_test.Cov.EdgeMap.{EdgesFound}
use ast_sqlite_test.Cov.ScoredEdges.{
  score_of, get_best_entries, update_if_best, ilog10, saturating_div, claim_edges, beats,
  saturating_mul, log10_floor,
}
use ast_sqlite_test.Cov.ScoredEdges.Best.{wins}
use ast_sqlite_test.Engine.Diversity.{
  DiversityEscape, try_insert_hash, hamming_distance, bit, try_insert, simhash_stream, weights,
  weigh, weigh_all, signs,
}
use ast_sqlite_test.Engine.Diversity.Window.{IsValid}
use ast_sqlite_test.Engine.Minimizer.{GreedyCoverage, Cull, on_add, minimize, is_empty}
use ast_sqlite_test.Engine.Minimizer.Acceptance.{judged, diverse, on_add_outcome}
use ast_sqlite_test.Engine.Minimizer.Culling.{for_each, ripe, minimize_removes}
use ast_sqlite_test.Engine.SumTable.{resum, sum_from, BlockSumTable, sample, pick, find_block}
use ast_sqlite_test.Engine.SumTable.Weights as Table
use ast_sqlite_test.Engine.SumTable.Table.{Inserted, Removed, Updated, changes-IsValid}
use ast_sqlite_test.Engine.SumTable.Repair.{block_sum, resum-IsValid}
use ast_sqlite_test.Engine.SumTable.Roulette.{Chosen, Sampled, sample_wheel}
use ast_sqlite_test.Tests.Arms.{whole}
use ast_sqlite_test.Feedback.Outcome.{rejected, bad}

-- Two hashes that differ in all bits.
abbrev two_hashes : DiversityEscape
two_hashes = record { hashes = 0 ∷ 18446744073709551615 ∷ []; entries = 1 ∷ 2 ∷ [] }

two_hashes-IsValid : IsValid two_hashes
unfolding hamming_distance bit
two_hashes-IsValid = record { in_step = refl; bounded = omega arith; spread = (refl, (refl, tt)) }

abbrev linear : ℕ → ℕ
linear n = n

linear_pos : (n : ℕ) → 0 < n → 0 < linear n
linear_pos n h = h

abbrev hash_number : ℕ → ℕ
hash_number n = n

abbrev some_best : GreedyCoverage
some_best = record {
  best_edges = record { best_entries = none ∷ some (record { id = 1; score = 1 }) ∷ [] };
  diversity = record { hashes = 0 ∷ []; entries = 1 ∷ [] };
  gc_rotation = (4, 4) ∷ (5, 1) ∷ [];
}

abbrev second_edge : EdgesFound
second_edge = record { new = []; all = 1 ∷ [] }

on_add_outcome_example :
    (score : ℕ) × (g' : GreedyCoverage) × (is_empty second_edge.all ≡ false
      → score_of linear 2 1 100 ≡ some score)
    × (on_add hash_number linear some_best 9 (0 ∷ 0 ∷ []) 100 0 second_edge
        ≡ some (
          g',
          judged hash_number linear linear_pos some_best 9 (0 ∷ 0 ∷ []) 100 0 second_edge refl (
              diverse hash_number linear linear_pos some_best 9 (0 ∷ 0 ∷ []) 100 0 second_edge refl
              || wins score second_edge.all some_best.best_edges.best_entries),
        ))
on_add_outcome_example =
    on_add_outcome hash_number linear linear_pos some_best 9 (0 ∷ 0 ∷ []) 100 0 second_edge refl
      (omega arith)

turned_away :
    on_add hash_number linear some_best 9 (0 ∷ 0 ∷ []) 100 0 second_edge
    ≡ some (some_best, rejected bad)
unfolding on_add try_insert try_insert_hash simhash_stream weights weigh_all weigh signs
    hamming_distance bit update_if_best score_of ilog10 saturating_div claim_edges beats
    saturating_mul log10_floor
turned_away = refl

abbrev remove_id : EntryId → List EntryId → List EntryId
remove_id id ids = id ∷ ids

minimize_removes_example :
    (culled : List EntryId) × (rotation : Assoc ℕ) × (minimize remove_id remove_id some_best
        (1 ∷ 4 ∷ 5 ∷ 6 ∷ [])
        (6 ∷ [])
        []
        []
      ≡ (
        record some_best { gc_rotation = rotation },
        for_each remove_id culled [],
        for_each remove_id culled [],
      ))
    × ((id : EntryId)
        → mem id culled
          ≡ mem id (1 ∷ 4 ∷ 5 ∷ 6 ∷ [])
            && not (mem id (get_best_entries some_best.best_edges))
            && not (mem id (6 ∷ []))
            && not (mem id some_best.diversity.entries)
            && ripe some_best.gc_rotation id)
minimize_removes_example =
    minimize_removes remove_id remove_id some_best (1 ∷ 4 ∷ 5 ∷ 6 ∷ []) (6 ∷ []) [] [] refl

abbrev nothing_removed : Cull remove_id remove_id
nothing_removed = record { rotation = []; corpus = []; scheduler = [] }

abbrev five_passes : List (List EntryId)
five_passes = replicate 5 (3 ∷ 7 ∷ [])

-- Slot 1 is free, and the sums of the second block and of the table have drifted.
abbrev four_weights : BlockSumTable whole
four_weights = record {
  leaves = 5 ∷ 0 ∷ 7 ∷ 2 ∷ [];
  blocks = 5 ∷ 12 ∷ [];
  total_sum = 18;
  block_size = 2;
  free_slots = 1 ∷ [];
  requests = 3;
  fall_through = 0;
}

four_weights_filled : (b : ℕ) → b < 2 → b * 2 < 4
four_weights_filled b h = omega (arith, h)

four_weights-IsValid : Table.IsValid whole four_weights
four_weights-IsValid = record {
  sized = omega arith;
  covered = omega arith;
  filled = four_weights_filled;
  free = λ i m. let first : 1 ≡ i = ground (arith, m) in rw (← first) (omega arith, refl);
  freed_once = refl;
}

changes-IsValid_example :
    ((t' : BlockSumTable whole) × Inserted whole 1 200 (1 ∷ []) 9 four_weights t')
    × ((t' : BlockSumTable whole) × Removed whole 1 200 2 four_weights t')
    × ((t' : BlockSumTable whole) × Updated whole 1 200 2 9 four_weights t')
changes-IsValid_example =
    changes-IsValid whole 1 200 2 9 four_weights four_weights-IsValid (omega arith) refl

resum-IsValid_example :
    Table.IsValid whole (resum whole four_weights)
    × ((b : ℕ)
        → b < 2
        → get_elem? (resum whole four_weights).blocks b
          ≡ some (block_sum whole 2 b (5 ∷ 0 ∷ 7 ∷ 2 ∷ [])))
    × (length (resum whole four_weights).blocks ≡ 2)
    × ((resum whole four_weights).total_sum ≡ sum_from whole 0 (resum whole four_weights).blocks)
    × ((resum whole four_weights).leaves ≡ four_weights.leaves)
    × ((resum whole four_weights).free_slots ≡ 1 ∷ [])
    × ((resum whole four_weights).requests ≡ 0)
    × ((resum whole four_weights).fall_through ≡ 0)
resum-IsValid_example = resum-IsValid whole four_weights four_weights-IsValid

-- A draw that falls through
abbrev draw : ℕ → Option ℕ
draw bound = some 16

sample_wheel_example :
    (t' : BlockSumTable whole) × (slot : ℕ) × (b : ℕ) × (target : ℕ) × (sample whole draw
        four_weights
      ≡ some (t', some slot))
    × (slot < 4)
    × Chosen whole 16 (5 ∷ 12 ∷ []) b target
    × Sampled whole b target four_weights t' slot
sample_wheel_example =
    sample_wheel whole draw 16 four_weights four_weights-IsValid (omega arith) refl

falls_through :
    sample whole draw four_weights
    ≡ some (record four_weights { requests = 4; fall_through = 1 }, some 3)
unfolding sample pick find_block
falls_through = refl
