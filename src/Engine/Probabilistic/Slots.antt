-- ===== src/Engine/Probabilistic/Slots.antt =====
-- The table and the map stay in step.
use ast_sqlite_test.Common.{
  ℕ, ◌+◌, ◌<◌, ◌≤◌, ◌≡◌, refl, false, List, [], ◌∷◌, ◌++◌, Option, none, some, leb, length,
  if◌then◌else◌, get_elem?, get_or, set, option_map, arith, Bool-cases, inl, inr, length-append,
  length-set, ◌∙◌, ap, sym, get_elem?_in_range, get_or-set_self, get_or_seam, max,
}
use ast_sqlite_test.Common.Assoc.{mem}
use ast_sqlite_test.Core.Entry.{EntryId, CorpusEntry}
use ast_sqlite_test.Feedback.Floats.{Floats}
use ast_sqlite_test.Engine.SumTable.{nothing, BlockSumTable, insert}
use ast_sqlite_test.Engine.SumTable.Weights as Table
use ast_sqlite_test.Engine.SumTable.Table.{
  next_slot, next_weight, next_free, insert-IsValid, remove-IsValid,
}
use ast_sqlite_test.Engine.Probabilistic.{
  Arms, Slot, insert_slot, overwrite_slot, ProbabilisticMabScheduler, on_add, on_remove,
}

module _ (F : Floats) (B : Arms F) (get_full : EntryId → List Slot → Option ℕ)
    (low high : F.F64) where
  -- The table is valid and has a slot for each entry of the map.
  pub record IsInStep (s : ProbabilisticMabScheduler F B get_full low high) : Type 0 where
    pub table : Table.IsValid F s.queue
    pub paired : length s.id_mapping ≡ length s.queue.leaves

module _ {A : Type 0} where
  get_elem?-set : (xs : List A) (i : ℕ) (v : A) → i < length xs → get_elem? (set xs i v) i ≡ some v
  get_elem?-set xs i v l =
      get_elem?_in_range (set xs i v) i v (omega (arith, l, length-set xs i v))
      ∙ ap some (get_or-set_self xs i v v l)

  get_elem?_last : (xs : List A) (v : A) → get_elem? (xs ++ v ∷ []) (length xs) ≡ some v
  get_elem?_last xs v =
      get_elem?_in_range (xs ++ v ∷ []) (length xs) v (omega (arith, length-append xs (v ∷ [])))
      ∙ ap some (get_or_seam xs [] v v)

  get_elem?-some : (xs : List A) (i : ℕ) → i < length xs → (a : A) × (get_elem? xs i ≡ some a)
  get_elem?-some [] i l = absurd (omega arith)
  get_elem?-some (x ∷ xs) i l = (get_or (x ∷ xs) i x, get_elem?_in_range (x ∷ xs) i x l)

next_slot-le :
    (F : Floats) (low high : F.F64) (t : BlockSumTable F)
    → Table.IsValid F t
    → (slots : List ℕ) → t.free_slots ≡ slots
    → next_slot F low high slots t ≤ length t.leaves
next_slot-le F low high t v [] e = omega arith
next_slot-le F low high t v (slot ∷ slots) e =
    let here = (v.free slot (rw e (ground arith))).0 in omega (arith, here)

module _ (F : Floats) (B : Arms F) (get_full : EntryId → List Slot → Option ℕ) (low high : F.F64)
    {A : Type 0} (entry : CorpusEntry A) (s : ProbabilisticMabScheduler F B get_full low high)
    (v : IsInStep F B get_full low high s) where
  abbrev added_score : F.F64
  added_score =
      (B.calculate_score (B.new_with_prior entry.meta s.mab).1
        (B.new_with_prior entry.meta s.mab).0).1

  -- The slot that the entry gets.
  abbrev slot_idx : ℕ
  slot_idx = next_slot F low high s.queue.free_slots s.queue

  -- What the new slot holds under the hash `hashed`.
  abbrev taken : EntryId → Slot
  taken hashed = record {
    hashed = hashed;
    id = entry.raw.id;
    item = record { epoch = B.epoch s.mab; stats = (B.new_with_prior entry.meta s.mab).1 };
  }

  abbrev mapping : List Slot
  mapping =
      let item = (taken 0).item in
      if leb (length s.id_mapping) slot_idx
      then insert_slot F B get_full low high entry.raw.id item s.id_mapping
      else overwrite_slot slot_idx entry.raw.id item s.id_mapping

  mapped :
      get_full entry.raw.id s.id_mapping ≡ none
      → (length mapping ≡ max (length s.queue.leaves) (slot_idx + 1))
        × (option_map (λ slot. slot.id) (get_elem? mapping slot_idx) ≡ some entry.raw.id)
  unfolding insert_slot overwrite_slot
  mapped fresh =
      let low_idx = next_slot-le F low high s.queue v.table s.queue.free_slots refl in
      elim (Bool-cases (leb (length s.id_mapping) slot_idx)) [
        | inl e ↦
            let last : slot_idx ≡ length s.id_mapping = ground (arith, e, low_idx, v.paired) in
            rw e (
              rw (fresh, insert_slot)
                (
                  omega
                      (arith, last, v.paired, length-append s.id_mapping (taken entry.raw.id ∷ [])),
                  rw last (
                      ap (option_map (λ slot. slot.id))
                        (get_elem?_last s.id_mapping (taken entry.raw.id))),
                ))
        | inr ne ↦
            let inside : slot_idx < length s.id_mapping = ground (arith, ne) in
            let (old, found) = get_elem?-some s.id_mapping slot_idx inside in
            let same = length-set s.id_mapping slot_idx (taken old.hashed) in
            rw ne (
              rw (found, overwrite_slot)
                (
                  omega (arith, inside, v.paired, same),
                  ap (option_map (λ slot. slot.id))
                      (get_elem?-set s.id_mapping slot_idx (taken old.hashed) inside),
                ))
      ]

  -- An entry that the map does not have is added without a panic: it gets the last slot that was
  -- freed, with its score as the weight, or else a new slot, with its score clamped, and the same
  -- slot of the map; no other weight changes, the slot is not free any more, and table and map
  -- stay in step.
  pub on_add-IsInStep :
      get_full entry.raw.id s.id_mapping ≡ none
      → (s' : ProbabilisticMabScheduler F B get_full low high) × (on_add F B get_full low high entry
            s
          ≡ some (s', added_score))
        × IsInStep F B get_full low high s'
        × (option_map (λ slot. slot.id) (get_elem? s'.id_mapping slot_idx) ≡ some entry.raw.id)
        × Table.Changed F slot_idx
            (next_weight F low high s.queue.free_slots added_score)
            (nothing F)
            s.queue
            s'.queue
        × (s'.queue.free_slots ≡ next_free F low high s.queue.free_slots)
  unfolding on_add
  on_add-IsInStep fresh =
      let (queue, (run, table, c, free)) = insert-IsValid F low high added_score s.queue v.table in
      let (size, there) = mapped fresh in
      (
        record {
          queue = queue;
          id_mapping = mapping;
          mab =
              (B.calculate_score (B.new_with_prior entry.meta s.mab).1
                (B.new_with_prior entry.meta s.mab).0).0;
        },
        rw (run, on_add) refl,
        record { table = table; paired = size ∙ sym c.size },
        there,
        c,
        free,
      )

module _ (F : Floats) (B : Arms F) (get_full : EntryId → List Slot → Option ℕ) (low high : F.F64)
    (s : ProbabilisticMabScheduler F B get_full low high) (v : IsInStep F B get_full low high s)
    (id : EntryId) (idx : ℕ) (found : get_full id s.id_mapping ≡ some idx) where
  -- Where the map finds the id in a slot of the table that is in use, a removal does not panic and
  -- frees that slot: table and map stay in step, the slot weighs nothing and no other weight
  -- changes, and the next entry added gets the slot, whatever its score.
  pub on_remove-IsInStep :
      idx < length s.id_mapping
      → mem idx s.queue.free_slots ≡ false
      → (s' : ProbabilisticMabScheduler F B get_full low high) × (on_remove F B get_full low high id
            s
          ≡ some s')
        × IsInStep F B get_full low high s'
        × Table.Changed F idx (nothing F) (get_or s.queue.leaves idx (nothing F)) s.queue s'.queue
        × (s'.queue.free_slots ≡ idx ∷ s.queue.free_slots)
        × ((weight : F.F64)
            → (queue : BlockSumTable F) × (insert F low high weight s'.queue ≡ some (queue, idx)))
  unfolding on_remove
  on_remove-IsInStep inside used =
      let inside' : idx < length s.queue.leaves = omega (arith, inside, v.paired) in
      let (queue, (run, table, c, free)) =
        remove-IsValid F low high idx s.queue v.table inside' used in
      (
        record s { queue = queue },
        rw (found, on_remove) (rw (run, on_remove) refl),
        record { table = table; paired = omega (arith, v.paired, c.size, inside') },
        record {
          size = c.size;
          leaf = c.leaf;
          leaves_kept = c.leaves_kept;
          own_block = c.own_block;
          blocks_kept = c.blocks_kept;
          total = c.total;
          same_size = c.same_size;
          same_requests = c.same_requests;
          same_fall_through = c.same_fall_through;
        },
        free,
        λ weight.
            let (next, (again, valid, moved, left)) =
              insert-IsValid F low high weight queue table in
            (next, again ∙ ap (λ slots. some (next, next_slot F low high slots queue)) free),
      )
