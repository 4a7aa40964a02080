-- ===== src/Tests/Schedulers.antt =====
-- Runs of the schedulers over a corpus of a few entries.
use native.Mathlib.Nat.{div-le_of_le-mul}
use ast_sqlite_test.Common.{
  Bool, min, leb, ◌/◌, ℕ, suc, ◌≡◌, ◌⊎◌, ◌<◌, ◌≤◌, refl, true, false, List, [], ◌∷◌, Option, none,
  some, ◌*◌, ltb, length, if◌then◌else◌, replicate, arith, Bool-cases, inl, inr, all,
}
use ast_sqlite_test.Common.Assoc.{mem, lookup}
use ast_sqlite_test.Core.Entry.{EntryId, RawEntry, CorpusEntry}
use ast_sqlite_test.Feedback.Outcome.{TestableEntry}
use ast_sqlite_test.Mutate.Strategy.{Host, World}
use ast_sqlite_test.Engine.Heap.{Target}
use ast_sqlite_test.Engine.Heap as Heap
use ast_sqlite_test.Engine.Heap.Items.{occurs, items, ids_of}
use ast_sqlite_test.Engine.Heap.Once.{next_batch_once}
use ast_sqlite_test.Engine.Fast.{Arm, Drawn}
use ast_sqlite_test.Engine.Fast as Fast
use ast_sqlite_test.Engine.Fast.Owners.{owners, Armed}
use ast_sqlite_test.Engine.Fast.Rounds.{AllFair, next_batch-Armed}
use ast_sqlite_test.Engine.Weighted.{
  WeightedIndex, Listed, AdaptiveWeightedRandomScheduler, adaptive_next_batch,
}
use ast_sqlite_test.Engine.Weighted as Weighted
use ast_sqlite_test.Engine.Weighted.Draws.{next_batch_listed}
use ast_sqlite_test.Engine.Weighted.Credits.{Credited, adaptive_next_batch_credits}
use ast_sqlite_test.Tests.Hosts.{dice, with_draws}

-- The corpus is the list of its ids.
abbrev stored : EntryId → CorpusEntry ℕ
stored id = record {
  raw = record { id = id; parents = []; ast = id * 10 };
  meta = record {
    triggers_bug = false;
    is_valid_syntax = true;
    exec_time = 5000;
    new_cov_nodes = 1;
    query_size = 3;
  };
}

abbrev get_stored : EntryId → List ℕ → List ℕ × Option (CorpusEntry ℕ)
get_stored id ids = (ids, if mem id ids then some (stored id) else none)

get_stored_id :
    (id : EntryId) (c : List ℕ) (e : CorpusEntry ℕ) → (get_stored id c).1 ≡ some e → e.raw.id ≡ id
get_stored_id id c e h = elim (Bool-cases (mem id c)) [
  | inl t ↦ ground (arith, h, t)
  | inr f ↦ ground (arith, h, f)
]

get_stored_misses : (id : EntryId) (c : List ℕ) → (get_stored id c).1 ≡ none → mem id c ≡ false
get_stored_misses id c h = elim (Bool-cases (mem id c)) [
  | inl t ↦ absurd (ground (arith, h, t))
  | inr f ↦ f
]

abbrev few_ids : Listed ℕ
few_ids = record { Corpus = List ℕ; ids = λ c. c; size = λ c. length c; get = get_stored }

get_stored_listed :
    (id : EntryId) (c : List ℕ)
    → mem id c ≡ true
    → (e : CorpusEntry ℕ) × ((get_stored id c).1 ≡ some e) × (e.raw.id ≡ id)
get_stored_listed id c m = (stored id, rw m refl, refl)

-- An index is sampled by the next draw, whatever the weights are.
abbrev next_of : ℕ → List ℕ → ℕ × List ℕ
next_of bound [] = (0, [])
next_of bound (x ∷ xs) = (if ltb x bound then x else 0, xs)

abbrev built : List ℕ → Option ℕ
built [] = none
built (weight ∷ weights) = some (length (weight ∷ weights))

built_in_range :
    (weights : List ℕ) (d : ℕ) (g : List ℕ)
    → built weights ≡ some d
    → (next_of d g).0 < length weights
built_in_range [] d g h = absurd (ground (arith, h))
built_in_range (weight ∷ weights) d [] h = ground (arith, h)
built_in_range (weight ∷ weights) d (x ∷ g) h = ground (arith, h)

abbrev even_draws : WeightedIndex ℕ (List ℕ)
even_draws = record { Index = ℕ; new = built; sample = next_of; in_range = built_in_range }

built_even : (n : ℕ) → (d : ℕ) × (built (replicate (suc n) 1) ≡ some d)
built_even n = (suc (length (replicate n 1)), refl)

-- Entry 8 is not in the corpus any more, and the score of entry 7 is too old.
abbrev targets : List (Target dice)
targets =
    record { score = 9; epoch = 20; stats = 1; item = 8 }
    ∷ record { score = 5; epoch = 100; stats = 2; item = 7 }
    ∷ record { score = 3; epoch = 20; stats = 0; item = 6 }
    ∷ []

next_batch_once_example :
    (parents : List (TestableEntry (RawEntry ℕ))) × (queue' : List (Target dice)) × (corpus' : List
      ℕ)
    × (w' : World dice) × (Heap.next_batch dice get_stored
          (λ id score c. c)
          2
          targets
          (6 ∷ 7 ∷ [])
          (with_draws [])
        ≡ some (parents, queue', corpus', w'))
    × (length parents ≤ 2)
    × ((id : EntryId)
        → (occurs id (ids_of parents) ≤ occurs id (items dice targets))
          × (occurs id (items dice queue') ≤ occurs id (items dice targets))
          × (mem id (6 ∷ 7 ∷ []) ≡ true
              → occurs id (items dice queue') ≡ occurs id (items dice targets)))
    × ((2 ≤ length parents)
        ⊎ ((items dice queue' ≡ ids_of parents)
            × ((id : EntryId)
                → mem id (6 ∷ 7 ∷ []) ≡ true
                → occurs id (ids_of parents) ≡ occurs id (items dice targets))))
next_batch_once_example =
    next_batch_once dice get_stored (λ id score c. c) get_stored_id (λ id c. mem id c)
      get_stored_misses (λ id j c. refl) (λ id j score c. refl) 2 targets (6 ∷ 7 ∷ [])
      (with_draws [])

next_batch_listed_example :
    (parents : List (TestableEntry (RawEntry ℕ))) × (c' : List ℕ) × (w' : World dice)
    × (Weighted.next_batch dice 1 even_draws few_ids 3 (6 ∷ 7 ∷ []) (with_draws (1 ∷ 0 ∷ 1 ∷ []))
        ≡ some (parents, c', w'))
    × (length parents ≡ 3)
    × (all (λ id. mem id (6 ∷ 7 ∷ [])) (ids_of parents) ≡ true)
next_batch_listed_example =
    next_batch_listed dice 1 even_draws built_even few_ids (λ id c. refl) (λ c. refl)
      get_stored_listed 3 (6 ∷ 7 ∷ []) (with_draws (1 ∷ 0 ∷ 1 ∷ []))

abbrev fresh : AdaptiveWeightedRandomScheduler dice 1 even_draws few_ids
fresh = record { stat_mapping = (6, 4) ∷ []; dist = none }

adaptive_next_batch_credits_example :
    (parents : List (TestableEntry (RawEntry ℕ))) × (s' : AdaptiveWeightedRandomScheduler dice 1
      even_draws few_ids)
    × (c' : List ℕ) × (w' : World dice) × (adaptive_next_batch dice 1 even_draws few_ids
          (λ score. false)
          2
          fresh
          (6 ∷ 7 ∷ [])
          (with_draws (1 ∷ 0 ∷ []))
        ≡ some (parents, s', c', w'))
    × (length parents ≤ 2)
    × Credited s'.stat_mapping parents
    × ((id : EntryId)
        → (lookup id fresh.stat_mapping ≡ none)
          ⊎ (lookup id s'.stat_mapping ≡ lookup id fresh.stat_mapping))
adaptive_next_batch_credits_example =
    adaptive_next_batch_credits dice 1 even_draws built_even few_ids (λ score. false) (λ c. refl)
      get_stored_id 2 fresh (6 ∷ 7 ∷ []) (with_draws (1 ∷ 0 ∷ []))

-- Scores are at most 9, the greatest weight; a chance is a whole number, 0 or 1.
abbrev capped : Host
capped = record dice { calculate_score = λ hook heap. (heap, min hook 9) }

abbrev at_most_one : ℕ → Bool
at_most_one p = leb p 1

capped_score : (stats heap : ℕ) → at_most_one (min stats 9 / 9) ≡ true
capped_score stats heap =
    let low : min stats 9 / 9 ≤ 1 = div-le_of_le-mul 9 (omega arith) in ground (arith, low)

abbrev capped_draws : World capped
capped_draws = record { heap = 0; rng = 1 ∷ 1 ∷ 0 ∷ 1 ∷ [] }

abbrev arms : List (Arm capped)
arms =
    record { id = 6; epoch = 20; stats = 3; item = 5 }
    ∷ record { id = 7; epoch = 0; stats = 4; item = 9 }
    ∷ []

next_batch-Armed_example :
    (d : Drawn capped get_stored 9 at_most_one) × (Fast.next_batch capped get_stored 9 at_most_one 8
        2 20
        (record { arms = arms; generation = []; corpus = 6 ∷ 7 ∷ []; world = capped_draws })
      ≡ some d)
    × (owners d.arms ≡ owners arms)
    × (length d.generation ≤ 2)
    × Armed (owners arms) d.generation
    × AllFair capped get_stored 9 at_most_one get_stored_id capped_score d.arms
next_batch-Armed_example =
    next_batch-Armed capped get_stored 9 at_most_one get_stored_id capped_score 8 2 20 arms
      (6 ∷ 7 ∷ []) capped_draws (ground arith) (refl, (refl, tt))
