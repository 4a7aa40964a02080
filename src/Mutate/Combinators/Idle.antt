-- ===== src/Mutate/Combinators/Idle.antt =====
-- A strategy that reports no mutation has left the child alone: which combinators keep this.
use ast_sqlite_test.Common.{
  ℕ, zero, suc, ◌+◌, ◌≡◌, false, List, some, ◌==◌, length, get_elem?, if◌then◌else◌, arith,
  Bool-cases, Option-cases, inl, inr,
}
use ast_sqlite_test.Mutate.Strategy.{
  MutationState, mutated_child, unchanged, BreedResult, ok, err, is_mutated, Host, World, draw,
  flip, Child, Breed, MutationStrategy, breed_by_default,
}
use ast_sqlite_test.Mutate.Combinators.{
  randomly, sample_rounds, random_mutation_sampler, repeat_rounds, repeat, report, sigmoid,
  adaptive_strategy_scheduler,
}

module _ (H : Host) where
  -- Whatever the strategy reports, an error included, if it is not a mutation.
  abbrev pub IsStrict : Breed H → Type 0
  IsStrict breed =
      (child : Child H) (gen : List (Child H)) (w : World H) (child' : Child H) (w' : World H)
      (r : BreedResult)
      → breed child gen w ≡ some (child', w', r)
      → is_mutated r ≡ false
      → child' ≡ child

  -- Where it reports success without a mutation.
  abbrev pub IsHonest : Breed H → Type 0
  IsHonest breed =
      (child : Child H) (gen : List (Child H)) (w : World H) (child' : Child H) (w' : World H)
      → breed child gen w ≡ some (child', w', ok unchanged)
      → child' ≡ child

  pub breed_by_default-IsStrict :
      (inner : Breed H) → IsStrict inner → IsStrict (breed_by_default H inner)
  unfolding breed_by_default
  breed_by_default-IsStrict inner strict child gen w child' w' r h q =
      elim (Option-cases (inner child gen w)) [
        | inl gone ↦ ground (arith, h, gone)
        | inr ((c, v, s), run) ↦ ground (arith, h, run, q, strict child gen w c v s run)
      ]

  -- What `breed` returns, `breed_inner` did.
  pub breed_by_default_inner :
      (inner : Breed H) (child : Child H) (gen : List (Child H)) (w : World H) (child' : Child H)
      (w' : World H) (r : BreedResult)
      → breed_by_default H inner child gen w ≡ some (child', w', r)
      → (v : World H) × (inner child gen w ≡ some (child', v, r))
  unfolding breed_by_default
  breed_by_default_inner inner child gen w child' w' r h = elim (Option-cases (inner child gen w)) [
    | inl gone ↦ absurd (ground (arith, h, gone))
    | inr ((c, v, s), run) ↦ (v, ground (arith, h, run))
  ]

  randomly-IsStrict :
      (over : MutationStrategy H) (prob : H.F64)
      → IsStrict over.breed
      → IsStrict (randomly H over prob).breed
  unfolding randomly
  randomly-IsStrict over prob strict child gen w child' w' r h q =
      elim (Bool-cases (flip H prob w).0) [
        | inl hit ↦ strict child gen (flip H prob w).1 child' w' r (ground (arith, h, hit)) q
        | inr miss ↦ ground (arith, h, miss)
      ]

  abbrev All-IsStrict : List (MutationStrategy H) → Type 0
  All-IsStrict choices =
      (i : ℕ) (s : MutationStrategy H) → get_elem? choices i ≡ some s → IsStrict (s.breed)

  sample_rounds_lem :
      (choices : List (MutationStrategy H))
      → All-IsStrict choices
      → (rounds : ℕ) (status : MutationState) (child : Child H) (gen : List (Child H)) (w : World H)
        (child' : Child H) (w' : World H) (r : BreedResult)
      → sample_rounds H choices rounds status child gen w ≡ some (child', w', r)
      → is_mutated r ≡ false
      → (status ≡ unchanged) × (child' ≡ child)
  unfolding sample_rounds
  sample_rounds_lem choices strict zero mutated_child child gen w child' w' r h q =
      ground (arith, h, q)
  sample_rounds_lem choices strict zero unchanged child gen w child' w' r h q = ground (arith, h, q)
  sample_rounds_lem choices strict (suc rounds) status child gen w child' w' r h q =
      elim (Option-cases (draw H 0 (length choices) w)) [
        | inl gone ↦ ground (arith, h, gone)
        | inr ((i, w₁), drawn) ↦ elim (Option-cases (get_elem? choices i)) [
          | inl gone ↦ ground (arith, h, drawn, gone)
          | inr (s, at) ↦ elim (Option-cases (s.breed child gen w₁)) [
            | inl gone ↦ ground (arith, h, drawn, at, gone)
            | inr ((c, v, t), run) ↦
                let (before, after) =
                  sample_rounds_lem choices strict rounds
                    (if is_mutated t then mutated_child else status) c gen v child' w' r
                    (ground (arith, h, drawn, at, run)) q in
                ground (arith, before, after, strict i s at child gen w₁ c v t run)
          ]
        ]
      ]

  random_mutation_sampler-IsStrict :
      (choose_max choose_min : ℕ) (choices : List (MutationStrategy H))
      → All-IsStrict choices
      → IsStrict (random_mutation_sampler H choose_max choose_min choices).breed
  unfolding random_mutation_sampler
  random_mutation_sampler-IsStrict choose_max choose_min choices strict child gen w child' w' r h
        q =
      elim (Option-cases (draw H choose_min (choose_max + 1) w)) [
        | inl gone ↦ ground (arith, h, gone)
        | inr ((n, w₁), drawn) ↦ elim (Bool-cases (n == 0)) [
          | inl z ↦ ground (arith, h, drawn, z)
          | inr nz ↦
              (sample_rounds_lem choices strict n unchanged child gen w₁ child' w' r
                (ground (arith, h, drawn, nz)) q).1
        ]
      ]

  repeat_rounds_lem :
      (inner : MutationStrategy H)
      → IsHonest inner.breed
      → (rounds : ℕ) (state : MutationState) (child : Child H) (gen : List (Child H)) (w : World H)
        (child' : Child H) (w' : World H)
      → repeat_rounds H inner rounds state child gen w ≡ some (child', w', ok unchanged)
      → (state ≡ unchanged) × (child' ≡ child)
  unfolding repeat_rounds
  repeat_rounds_lem inner honest zero state child gen w child' w' h = ground (arith, h)
  repeat_rounds_lem inner honest (suc rounds) state child gen w child' w' h =
      elim (Option-cases (inner.breed child gen w)) [
        | inl gone ↦ ground (arith, h, gone)
        | inr ((c, v, ok mutated_child), run) ↦ ground (
          arith,
          repeat_rounds_lem inner honest rounds mutated_child c gen v child' w'
              (ground (arith, h, run)),
        )
        | inr ((c, v, ok unchanged), run) ↦ ground (
          arith,
          honest child gen w c v run,
          repeat_rounds_lem inner honest rounds state c gen v child' w' (ground (arith, h, run)),
        )
        | inr ((c, v, err e), run) ↦ ground (arith, h, run)
      ]

  repeat-IsHonest :
      (up_to : ℕ) (inner : MutationStrategy H)
      → IsHonest inner.breed
      → IsHonest (repeat H up_to inner).breed
  unfolding repeat
  repeat-IsHonest up_to inner honest child gen w child' w' h =
      elim (Option-cases (draw H 1 (up_to + 1) w)) [
        | inl gone ↦ ground (arith, h, gone)
        | inr ((n, w₁), drawn) ↦
            (repeat_rounds_lem inner honest n unchanged child gen w₁ child' w'
              (ground (arith, h, drawn))).1
      ]

  adaptive-IsStrict :
      (strategy : MutationStrategy H) (arm : ℕ)
      → IsStrict strategy.breed
      → IsStrict (adaptive_strategy_scheduler H strategy arm).breed
  unfolding adaptive_strategy_scheduler report
  adaptive-IsStrict strategy arm strict child gen w child' w' r h q =
      let (heap, score) = H.calculate_score arm w.heap in
      let started : World H = record w { heap = heap } in
      let (hit, w₁) = flip H (sigmoid H score) started in
      elim (Bool-cases hit) [
        | inl t ↦ elim (Option-cases (strategy.breed child gen w₁)) [
          | inl gone ↦ ground (arith, h, t, gone)
          | inr ((c, v, s), run) ↦ ground (arith, h, t, run, q, strict child gen w₁ c v s run)
        ]
        | inr f ↦ ground (arith, h, f)
      ]

  -- What the configurations are built from: strategies of `Atom`, chosen, sampled and weighed by arms
  -- at any depth.
  pub data Composed (Atom : MutationStrategy H → Type 1) : MutationStrategy H → Type 1 where
    atom : {s : MutationStrategy H} → Atom s → Composed Atom s
    chosen :
        {s : MutationStrategy H} (prob : H.F64)
        → Composed Atom s
        → Composed Atom (randomly H s prob)
    sampled :
        (choose_max choose_min : ℕ) (choices : List (MutationStrategy H))
        → ((i : ℕ) (s : MutationStrategy H) → get_elem? choices i ≡ some s → Composed Atom s)
        → Composed Atom (random_mutation_sampler H choose_max choose_min choices)
    weighed :
        {s : MutationStrategy H} (arm : ℕ)
        → Composed Atom s
        → Composed Atom (adaptive_strategy_scheduler H s arm)

  -- Where the strategies that others are composed of leave the child alone unless they report a
  -- mutation, so does every composition of them.
  pub Composed-IsStrict :
      (Atom : MutationStrategy H → Type 1)
      → ((s : MutationStrategy H) → Atom s → IsStrict s.breed)
      → (s : MutationStrategy H) → Composed Atom s
      → IsStrict s.breed
  Composed-IsStrict Atom base s (atom a) = base s a
  Composed-IsStrict Atom base s (chosen {s = over} prob c) =
      randomly-IsStrict over prob (Composed-IsStrict Atom base over c)
  Composed-IsStrict Atom base s (sampled choose_max choose_min choices cs) =
      random_mutation_sampler-IsStrict choose_max choose_min choices
        (λ i t at. Composed-IsStrict Atom base t (cs i t at))
  Composed-IsStrict Atom base s (weighed {s = over} arm c) =
      adaptive-IsStrict over arm (Composed-IsStrict Atom base over c)
