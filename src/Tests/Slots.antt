-- ===== src/Tests/Slots.antt =====
-- A scheduler with four slots in its table, one of them freed, and an index map that finds an id
-- by the hash it was inserted with.
use ast_sqlite_test.Common.{
  ◌<◌, ℕ, suc, ◌+◌, ◌*◌, ◌≡◌, refl, true, false, ◌&&◌, List, [], ◌∷◌, Option, none, some, get_elem?,
  option_map, ◌==◌, if◌then◌else◌, arith,
}
use ast_sqlite_test.Core.Entry.{EntryId, CorpusEntry}
use ast_sqlite_test.Engine.SumTable.{BlockSumTable, insert, set_weight}
use ast_sqlite_test.Engine.SumTable.Weights as Table
use ast_sqlite_test.Tests.Arms.{whole}
use ast_sqlite_test.Engine.Probabilistic.{
  Arms, Slot, ProbabilisticMabScheduler, on_add, on_remove, overwrite_slot,
}
use ast_sqlite_test.Engine.Probabilistic.Slots.{IsInStep, on_add-IsInStep, on_remove-IsInStep}

abbrev by_hash : EntryId → List Slot → Option ℕ
by_hash id [] = none
by_hash id (slot ∷ slots) =
    let later = option_map suc (by_hash id slots) in
    if (slot.hashed == id) && (slot.id == id) then some 0 else later

-- The heap counts the arms; an arm scores its handle.
abbrev counted : Arms whole
counted = record {
  Heap = ℕ;
  epoch = λ heap. 7;
  new_with_prior = λ meta heap. (heap + 1, heap);
  calculate_score = λ handle heap. (heap, handle);
  reset = λ heap. 0;
}

abbrev slot_of : EntryId → Slot
slot_of id = record { hashed = id; id = id; item = record { epoch = 7; stats = id } }

abbrev one_free : BlockSumTable whole
one_free = record {
  leaves = 5 ∷ 0 ∷ 7 ∷ 2 ∷ [];
  blocks = 5 ∷ 9 ∷ [];
  total_sum = 14;
  block_size = 2;
  free_slots = 1 ∷ [];
  requests = 3;
  fall_through = 0;
}

abbrev four_slots : ProbabilisticMabScheduler whole counted by_hash 1 200
four_slots = record {
  queue = one_free;
  id_mapping = slot_of 20 ∷ slot_of 21 ∷ slot_of 22 ∷ slot_of 23 ∷ [];
  mab = 30;
}

one_free_filled : (b : ℕ) → b < 2 → b * 2 < 4
one_free_filled b h = omega (arith, h)

four_slots-IsInStep : IsInStep whole counted by_hash 1 200 four_slots
four_slots-IsInStep = record {
  table = record {
    sized = omega arith;
    covered = omega arith;
    filled = one_free_filled;
    free = λ i m. let first : 1 ≡ i = ground (arith, m) in rw (← first) (omega arith, refl);
    freed_once = refl;
  };
  paired = refl;
}

abbrev fresh : CorpusEntry ℕ
fresh = record {
  raw = record { id = 40; parents = []; ast = 0 };
  meta = record {
    triggers_bug = false;
    is_valid_syntax = true;
    exec_time = 5;
    new_cov_nodes = 1;
    query_size = 9;
  };
}

on_add-IsInStep_example :
    (s' : ProbabilisticMabScheduler whole counted by_hash 1 200) × (on_add whole counted by_hash 1
        200 fresh four_slots
      ≡ some (s', 30))
    × IsInStep whole counted by_hash 1 200 s'
    × (option_map (λ slot. slot.id) (get_elem? s'.id_mapping 1) ≡ some 40)
    × Table.Changed whole 1 30 0 one_free s'.queue
    × (s'.queue.free_slots ≡ [])
on_add-IsInStep_example =
    on_add-IsInStep whole counted by_hash 1 200 fresh four_slots four_slots-IsInStep refl

on_remove-IsInStep_example :
    (s' : ProbabilisticMabScheduler whole counted by_hash 1 200) × (on_remove whole counted by_hash
        1 200 22 four_slots
      ≡ some s')
    × IsInStep whole counted by_hash 1 200 s'
    × Table.Changed whole 2 0 7 one_free s'.queue
    × (s'.queue.free_slots ≡ 2 ∷ 1 ∷ [])
    × ((weight : ℕ)
        → (queue : BlockSumTable whole) × (insert whole 1 200 weight s'.queue ≡ some (queue, 2)))
on_remove-IsInStep_example =
    on_remove-IsInStep whole counted by_hash 1 200 four_slots four_slots-IsInStep 22 2 refl
      (omega arith) refl

-- The overwritten key of a slot that is taken again is found by no id.
reused_key_missed :
    option_map
      (λ r. by_hash 40 (r.0.id_mapping))
      (on_add whole counted by_hash 1 200 fresh four_slots)
    ≡ some none
unfolding on_add insert set_weight overwrite_slot
reused_key_missed = refl
