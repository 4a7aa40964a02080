-- ===== src/Engine/Batcher/Energy.antt =====
-- The pool never holds an entry without a use left, and a batch is full.
use ast_sqlite_test.Common.{
  ℕ, zero, suc, ◌-◌, ◌*◌, ◌≤◌, ◌<◌, ◌≡◌, refl, min, max, Bool, true, false, ◌&&◌, List, [], ◌∷◌,
  Option, some, ltb, ◌==◌, if◌then◌else◌, length, get_elem?, get_or, set, all, arith, Bool-cases,
  Option-cases, inl, inr, length-append, get_elem?_in_range, ap, option_map,
}
use ast_sqlite_test.Engine.Batcher.Pools.{all-set, all-append, all-get_or, all-swap_remove}
use ast_sqlite_test.Engine.Batcher.{
  Lent, calculate_persistence, with_energy, refill, refill_if_empty, spend, swap_remove, draw_one,
  draw_all, next_batch, batch_multiplicator, min_refill, max_refill,
}

module _ {E : Type 0} (good : E → Bool) where
  -- An entry worth handing out, with a use left.
  abbrev pub usable : E × ℕ → Bool
  usable pair = good pair.0 && ltb 0 pair.1

  spend_at :
      (i : ℕ) (batch : List (E × ℕ)) (pair : E × ℕ)
      → get_elem? batch i ≡ some pair
      → 0 < pair.1
      → spend i batch
        ≡ some (
          pair.0,
          if pair.1 - 1 == 0
              then swap_remove i (pair.0, pair.1 - 1) (set batch i (pair.0, pair.1 - 1))
              else set batch i (pair.0, pair.1 - 1),
        )
  unfolding spend
  spend_at i batch pair found h =
      let some_left : (pair.1 == 0) ≡ false = ground (arith, h) in
      rw (found, spend) (rw some_left refl)

  spend_lem :
      (i : ℕ) (batch : List (E × ℕ))
      → all usable batch ≡ true
      → i < length batch
      → (entry : E) × (pool : List (E × ℕ)) × (spend i batch ≡ some (entry, pool))
        × (good entry ≡ true)
        × (all usable pool ≡ true)
  spend_lem i [] h l = absurd (omega arith)
  spend_lem i (b ∷ bs) h l =
      let pair = get_or (b ∷ bs) i b in
      let ok : usable pair ≡ true = all-get_or usable (b ∷ bs) i b h l in
      let left : 0 < pair.1 = ground (arith, ok) in
      (
        pair.0,
        _,
        spend_at i (b ∷ bs) pair (get_elem?_in_range (b ∷ bs) i b l) left,
        ground (arith, ok),
        elim (Bool-cases (pair.1 - 1 == 0)) [
          | inl last ↦
              rw last
                (all-swap_remove usable i (pair.0, pair.1 - 1) (pair.0, pair.1 - 1) (b ∷ bs) h l).0
          | inr more ↦
              rw more (all-set usable (b ∷ bs) i (pair.0, pair.1 - 1) h (ground (arith, ok, more)))
        ],
      )

module _ {E Inner C R : Type 0} (inner_next_batch : C → ℕ → R → Inner → List E × C × R × Inner)
    (digits : E → Option ℕ) (random_range : ℕ → ℕ → R → ℕ × R) (good : E → Bool)
    (draws_in_range : (low high : ℕ) (r : R)
      → low < high
      → (low ≤ (random_range low high r).0) × ((random_range low high r).0 < high))
    (inner_good : (c : C) (n : ℕ) (r : R) (s : Inner)
      → 0 < n
      → (0 < length (inner_next_batch c n r s).0) × (all good (inner_next_batch c n r s).0 ≡ true))
    (digits_positive : (e : E) (n : ℕ) → digits e ≡ some n → 0 < n) where
  abbrev pub Pool : Type 0
  Pool = Lent inner_next_batch digits random_range

  persistence_positive : (e : E) → 0 < calculate_persistence digits e
  unfolding calculate_persistence
  persistence_positive e = elim (Option-cases (digits e)) [
    | inl n ↦ rw (n, calculate_persistence) (omega arith)
    | inr (n, h) ↦ let pos = digits_positive e n h in rw (h, calculate_persistence) (omega arith)
  ]

  usable_items :
      (items : List E)
      → all good items ≡ true
      → (all (usable good) (with_energy digits items) ≡ true)
        × (length (with_energy digits items) ≡ length items)
  unfolding with_energy
  usable_items [] h = (refl, refl)
  usable_items (x ∷ items) h =
      let (rest, size) = usable_items items (ground (arith, h)) in
      (ground (arith, h, rest, persistence_positive x), ap suc size)

  refill_lem :
      (size : ℕ) (s : Pool)
      → all (usable good) s.batcher.batch ≡ true
      → (all (usable good) (refill inner_next_batch digits random_range size s).batcher.batch
          ≡ true)
        × (0 < length (refill inner_next_batch digits random_range size s).batcher.batch)
  unfolding refill
  refill_lem size s h =
      let r =
        inner_next_batch s.corpus (min (max size min_refill) max_refill) s.rng
          s.batcher.inner_scheduler in
      let (some_item, fine) =
        inner_good s.corpus (min (max size min_refill) max_refill) s.rng s.batcher.inner_scheduler
          (omega arith) in
      let (ok, size) = usable_items r.0 fine in
      (
        all-append (usable good) s.batcher.batch _ h ok,
        omega (arith, some_item, size, length-append s.batcher.batch (with_energy digits r.0)),
      )

  refill_if_empty_lem :
      (size : ℕ) (s : Pool)
      → all (usable good) s.batcher.batch ≡ true
      → (all
            (usable good)
            (refill_if_empty inner_next_batch digits random_range size s).batcher.batch
          ≡ true)
        × (0 < length (refill_if_empty inner_next_batch digits random_range size s).batcher.batch)
  unfolding refill_if_empty
  refill_if_empty_lem size s h = elim (Bool-cases (length s.batcher.batch == 0)) [
    | inl e ↦ rw e (refill_lem (size * batch_multiplicator) s h)
    | inr ne ↦ rw ne (h, ground (arith, ne))
  ]

  draw_one_lem :
      (size : ℕ) (s : Pool)
      → 0 < size
      → all (usable good) s.batcher.batch ≡ true
      → (entry : E) × (s' : Pool) × (draw_one inner_next_batch digits random_range size s
          ≡ some (entry, s'))
        × (good entry ≡ true)
        × (all (usable good) s'.batcher.batch ≡ true)
  unfolding draw_one
  draw_one_lem size s pos h =
      let s₁ = refill_if_empty inner_next_batch digits random_range size s in
      let (h₁, some_left) = refill_if_empty_lem size s h in
      let n = length s₁.batcher.batch in
      let d = random_range (n - min n size) n s₁.rng in
      let (low, high) = draws_in_range (n - min n size) n s₁.rng (omega (arith, some_left, pos)) in
      let (entry, pool, spent, fine, h₂) = spend_lem good d.0 s₁.batcher.batch h₁ high in
      (
        entry,
        record s₁ { batcher = record (s₁.batcher) { batch = pool }; rng = d.1 },
        ap (option_map _) spent,
        fine,
        h₂,
      )

  draw_all_step :
      (size count : ℕ) (s s' last : Pool) (entry : E) (entries : List E)
      → draw_one inner_next_batch digits random_range size s ≡ some (entry, s')
      → draw_all inner_next_batch digits random_range size count s' ≡ some (entries, last)
      → draw_all inner_next_batch digits random_range size (suc count) s
        ≡ some (entry ∷ entries, last)
  unfolding draw_all
  draw_all_step size count s s' last entry entries one rest =
      rw (one, draw_all) (ap (option_map _) rest)

  draw_all_lem :
      (size count : ℕ) (s : Pool)
      → 0 < size
      → all (usable good) s.batcher.batch ≡ true
      → (entries : List E) × (last : Pool) × (draw_all inner_next_batch digits random_range size
            count s
          ≡ some (entries, last))
        × (length entries ≡ count)
        × (all good entries ≡ true)
        × (all (usable good) last.batcher.batch ≡ true)
  unfolding draw_all
  draw_all_lem size zero s pos h = ([], s, refl, refl, refl, h)
  draw_all_lem size (suc count) s pos h =
      let (entry, s', one, fine, h') = draw_one_lem size s pos h in
      let (entries, last, drawn, size_lem, rest, h₃) = draw_all_lem size count s' pos h' in
      (
        entry ∷ entries,
        last,
        draw_all_step size count s s' last entry entries one drawn,
        ap suc size_lem,
        ground (arith, fine, rest),
        h₃,
      )

  -- With a generator that draws within the range it is given, an inner scheduler that never
  -- comes back empty, and scores of at least one digit: from a pool whose entries all have a use
  -- left, a batch of the size asked for is drawn without a panic, the pool stays so, and every
  -- entry of the batch is as good as those of the pool and of the inner scheduler.
  pub next_batch_full :
      (size : ℕ) (s : Pool)
      → all (usable good) s.batcher.batch ≡ true
      → (entries : List E) × (last : Pool) × (next_batch inner_next_batch digits random_range size s
          ≡ some (entries, last))
        × (length entries ≡ size)
        × (all good entries ≡ true)
        × (all (usable good) last.batcher.batch ≡ true)
  unfolding next_batch draw_all
  next_batch_full zero s h =
      let f : ltb (length s.batcher.batch) 0 ≡ false = ground arith in
      rw f ([], s, refl, refl, refl, h)
  next_batch_full (suc size) s h = elim (Bool-cases (ltb (length s.batcher.batch) (suc size))) [
    | inl e ↦ rw e (
        draw_all_lem (suc size) (suc size) _ (omega arith)
          (refill_lem (suc size * batch_multiplicator) s h).0)
    | inr ne ↦ rw ne (draw_all_lem (suc size) (suc size) s (omega arith) h)
  ]
