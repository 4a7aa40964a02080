-- ===== src/Mutate/Splice/Crossing.antt =====
-- Breedings of a child that take an entry of its generation.
use ast_sqlite_test.Common.{
  ◌>>=◌, Option, refl, ℕ, ◌<◌, ◌≡◌, false, List, some, length, get_elem?, arith, Option-cases, inl,
  inr, ◌⊎◌, ℕ_discrete, none, ◌≢◌, get_elem?-none,
}
use ast_sqlite_test.Mutate.Strategy.{
  BreedResult, err, ast_shared, breed_by_default, is_mutated, Host, World, draw, Child, by_default,
  ast_mut,
}
use ast_sqlite_test.Mutate.Combinators.Idle.{IsStrict}
use ast_sqlite_test.Mutate.Splice.{pick_entry}
use ast_sqlite_test.Mutate.Splice.Draws.{draw_lem, draw-some, ast_mut_count}

module _ (H : Host) where
  pub pick_entry-some :
      (gen : List (Child H)) (w : World H)
      → 0 < length gen
      → (other : Child H) × (w' : World H) × (i : ℕ) × (pick_entry H gen w ≡ some (other, w'))
        × (get_elem? gen i ≡ some other)
  unfolding pick_entry
  pick_entry-some gen w h =
      let (i, w', drawn) = draw-some H 0 (length gen) w h in
      let low = draw_lem H 0 (length gen) i w w' drawn in
      elim (Option-cases (get_elem? gen i)) [
        | inl gone ↦ absurd (get_elem?-none gen i low.1 gone)
        | inr (other, at) ↦ (other, w', i, rw (drawn, pick_entry) (rw (at, pick_entry) refl), at)
      ]

  -- A breeding that takes an entry of the generation
  abbrev pub crossing :
      (List H.Statement → Child H → Child H → World H → Option (Child H × World H × BreedResult))
      → Child H
      → List (Child H)
      → World H
      → Option (Child H × World H × BreedResult)
  crossing cross child gen w = elim (ast_mut H child) [
    | none ↦ some (child, w, err ast_shared)
    | some tree ↦ pick_entry H gen w >>= λ other. cross tree other.0 child other.1
  ]

  -- How a breeding on a child ends: a shared tree is refused, and otherwise an entry of the
  -- generation is taken.
  abbrev pub Crossed :
      (Child H → Child H → Child H → BreedResult → Type 0)
      → List (Child H)
      → Child H
      → Child H
      → BreedResult
      → Type 0
  Crossed With gen child child' r =
      ((child.entry.ast.count ≢ 1) × (r ≡ err ast_shared) × (child' ≡ child))
      ⊎ ((child.entry.ast.count ≡ 1)
          × ((i : ℕ) × (other : Child H) × (get_elem? gen i ≡ some other)
              × With other child child' r))

  -- What reports no mutation has left the child alone.
  pub Crossed-kept :
      (With : Child H → Child H → Child H → BreedResult → Type 0) (gen : List (Child H))
      (child child' : Child H) (r : BreedResult)
      → ((other : Child H) → With other child child' r → is_mutated r ≡ false → child' ≡ child)
      → Crossed With gen child child' r
      → is_mutated r ≡ false
      → child' ≡ child
  Crossed-kept With gen child child' r kept c q = elim c [
    | inl (shared, e, same) ↦ same
    | inr (alone, (i, other, at, end)) ↦ kept other end q
  ]

  pub pick_entry_empty :
      (gen : List (Child H)) (w : World H) → length gen ≡ 0 → pick_entry H gen w ≡ none
  unfolding pick_entry draw
  pick_entry_empty gen w e = ground (arith, e)

  pub same_run :
      {c c' : Child H} {v v' : World H} {r r' : BreedResult}
      {o : Option (Child H × World H × BreedResult)}
      → o ≡ some (c, v, r)
      → o ≡ some (c', v', r')
      → (c ≡ c') × (r ≡ r')
  same_run h k = (ground (arith, h, k), ground (arith, h, k))

  -- A strategy that takes an entry of the generation, if its inner part takes one and ends so
  pub crossing-IsStrict :
      (With : Child H → Child H → Child H → BreedResult → Type 0)
      (cross : List H.Statement
        → Child H
        → Child H
        → World H
        → Option (Child H × World H × BreedResult))
      → ((other child child' : Child H) (r : BreedResult)
          → With other child child' r
          → is_mutated r ≡ false
          → child' ≡ child)
      → ((child : Child H) (gen : List (Child H)) (w : World H)
          → 0 < length gen
          → (child' : Child H) × (w' : World H) × (r : BreedResult) × ((by_default H
                  (crossing cross)).breed
                child gen w
              ≡ some (child', w', r))
            × Crossed With gen child child' r)
      → IsStrict H (by_default H (crossing cross)).breed
  unfolding by_default breed_by_default
  crossing-IsStrict With cross kept total child gen w child' w' r h q =
      elim (ℕ_discrete (length gen) 0) [
        | yes e ↦ elim (ast_mut_count H child) [
          | inl (gone, shared) ↦ ground (arith, h, gone)
          | inr (here, alone) ↦ absurd (ground (arith, h, here, pick_entry_empty gen w e))
        ]
        | no ne ↦
            let (c, v, r', run, end) = total child gen w (omega (arith, ne)) in
            let (same, told) = same_run h run in
            rw same (
              Crossed-kept With gen child c r' (λ other. kept other child c r') end (rw (← told) q))
      ]
