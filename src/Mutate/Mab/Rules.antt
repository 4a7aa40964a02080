-- ===== src/Mutate/Mab/Rules.antt =====
-- The scheduler keeps its strategies, and leaves the child alone as they do.
use ast_sqlite_test.Common.{
  ℕ, zero, suc, ◌+◌, ◌*◌, ◌≡◌, ◌⊎◌, refl, sym, ◌∙◌, subst, Bool, true, false, List, [], ◌∷◌, ◌++◌,
  Option, some, leb, length, if◌then◌else◌, arith, Bool-cases, Option-cases, inl, inr,
  length-append,
}
use ast_sqlite_test.Mutate.Strategy.{
  Breed, BreedResult, ok, is_mutated, state_of, Host, World, Child,
}
use ast_sqlite_test.Mutate.Combinators.{report}
use ast_sqlite_test.Mutate.Combinators.Idle.{IsStrict}
use ast_sqlite_test.Mutate.Queue.{cmp, is_lt, is_stale, renew, pop, take_items}
use ast_sqlite_test.Mutate.Queue.Loop.{take_items-Taken}
use ast_sqlite_test.Mutate.Mab.{accept_under, Rule, apply_rules, mab_breed}

-- The rules of a queue under a predicate on their strategies.
module _ (H : Host) (P : Breed H → Type 0) where
  abbrev pub AllRules : List (Rule H) → Type 0
  AllRules [] = Unit {0}
  AllRules (rule ∷ rules) = P (rule.item.breed) × AllRules rules

  AllRules-append : (xs ys : List (Rule H)) → AllRules xs → AllRules ys → AllRules (xs ++ ys)
  AllRules-append [] ys h k = k
  AllRules-append (x ∷ xs) ys h k = (h.0, AllRules-append xs ys h.1 k)

  move-AllRules :
      {top top' : Rule H} {rest rest' : List (Rule H)}
      → ◌≡◌ {A = Option (Rule H × List (Rule H))} (some (top, rest)) (some (top', rest'))
      → AllRules (top ∷ rest)
      → AllRules (top' ∷ rest')
  move-AllRules {top} {top'} {rest} {rest'} h s =
      let same : ◌≡◌ {A = List (Rule H)} (top ∷ rest) (top' ∷ rest') = cc in subst AllRules same s

  pop-AllRules :
      (queue rest : List (Rule H)) (top : Rule H)
      → pop H queue ≡ some (top, rest)
      → AllRules queue
      → AllRules (top ∷ rest)
  unfolding pop
  pop-AllRules [] rest top h s = absurd (ground (arith, h))
  pop-AllRules (x ∷ xs) rest top h s = elim (Option-cases (pop H xs)) [
    | inl gone ↦
        move-AllRules {top = x} {top' = top} {rest = []} {rest' = rest}
          (sym (rw (gone, pop) refl) ∙ h) (s.0, tt)
    | inr ((best, others), found) ↦
        let (first, later) = pop-AllRules xs others best found s.1 in
        elim (Bool-cases (is_lt (cmp H x best))) [
          | inl t ↦
              move-AllRules {top = best} {top' = top} {rest = x ∷ others} {rest' = rest}
                (sym (rw (found, pop) (rw t refl)) ∙ h) (first, (s.0, later))
          | inr f ↦
              move-AllRules {top = x} {top' = top} {rest = xs} {rest' = rest}
                (sym (rw (found, pop) (rw f refl)) ∙ h) s
        ]
  ]

  stop :
      {acc acc' queue queue' : List (Rule H)} {w w' : World H}
      → ◌≡◌ {A = Option (List (Rule H) × List (Rule H) × World H)}
          (some (acc, queue, w))
          (some (acc', queue', w'))
      → AllRules queue
      → AllRules acc
      → AllRules acc' × AllRules queue'
  stop {acc} {acc'} {queue} {queue'} h s k =
      let left : acc ≡ acc' = cc in
      let right : queue ≡ queue' = cc in (subst AllRules left k, subst AllRules right s)

  -- What the loop takes and leaves satisfies what the queue does.
  take_items-AllRules :
      (rounds choose current_epoch : ℕ) (queue acc acc' queue' : List (Rule H)) (w w' : World H)
      → take_items H rounds accept_under choose current_epoch queue acc w ≡ some (acc', queue', w')
      → AllRules queue
      → AllRules acc
      → AllRules acc' × AllRules queue'
  unfolding take_items
  take_items-AllRules zero choose epoch queue acc acc' queue' w w' h s k =
      absurd (ground (arith, h))
  take_items-AllRules (suc rounds) choose epoch queue acc acc' queue' w w' h s k =
      elim (Bool-cases (leb choose (length acc))) [
        | inl full ↦
            stop {acc = acc} {acc' = acc'} {queue = queue} {queue' = queue'} {w = w} {w' = w'}
              (sym (rw (full, take_items) refl) ∙ h) s k
        | inr more ↦ elim (Option-cases (pop H queue)) [
          | inl gone ↦
              stop {acc = acc} {acc' = acc'} {queue = queue} {queue' = queue'} {w = w} {w' = w'}
                (sym (rw (more, take_items) (rw (gone, take_items) refl)) ∙ h) s k
          | inr ((top, rest), found) ↦
              let (first, later) = pop-AllRules queue rest top found s in
              elim (Bool-cases (is_stale H accept_under epoch top)) [
                | inl old ↦
                    take_items-AllRules rounds choose epoch ((renew H epoch top w).0 ∷ rest) acc
                      acc' queue' (renew H epoch top w).1 w'
                      (sym (
                          rw (more, take_items)
                            (rw (found, take_items) (rw (old, take_items) refl)))
                        ∙ h)
                      (unfold renew in (first, later)) k
                | inr young ↦
                    take_items-AllRules rounds choose epoch rest (acc ++ top ∷ []) acc' queue' w w'
                      (sym (
                          rw (more, take_items)
                            (rw (found, take_items) (rw (young, take_items) refl)))
                        ∙ h)
                      later (AllRules-append acc (top ∷ []) k (first, tt))
              ]
        ]
      ]

module _ (H : Host) where
  -- A strategy that ends without a panic.
  abbrev pub Returns : Breed H → Type 0
  Returns b =
      (child : Child H) (gen : List (Child H)) (w : World H)
      → (r : Child H × World H × BreedResult) × (b child gen w ≡ some r)

  -- A strategy that leaves the child alone unless it reports a mutation, and ends.
  abbrev pub IsSafe : Breed H → Type 0
  IsSafe b = IsStrict H b × Returns b

  apply_rules_lem :
      (rules : List (Rule H))
      → AllRules H IsSafe rules
      → (before : Bool) (child child' : Child H) (gen : List (Child H)) (w w' : World H)
      → apply_rules H rules before child gen w ≡ some (child', w', false)
      → (before ≡ false) × (child' ≡ child)
  unfolding apply_rules report
  apply_rules_lem [] s before child child' gen w w' h = ground (arith, h)
  apply_rules_lem (rule ∷ rules) s before child child' gen w w' h =
      elim (Option-cases (rule.item.breed child gen w)) [
        | inl gone ↦ absurd (ground (arith, h, gone))
        | inr ((c, v, r), run) ↦
            let told = report H rule.stats (c, v, r) in
            elim (Bool-cases (is_mutated r)) [
              | inl t ↦ ground (
                arith,
                apply_rules_lem rules s.1 true told.0 child' gen told.1 w'
                    (ground (arith, h, run, t)),
              )
              | inr f ↦ ground (
                arith,
                s.0.0 child gen w c v r run f,
                apply_rules_lem rules s.1 before told.0 child' gen told.1 w'
                    (ground (arith, h, run, f)),
                f,
              )
            ]
      ]

  apply_rules_total :
      (rules : List (Rule H))
      → AllRules H IsSafe rules
      → (before : Bool) (child : Child H) (gen : List (Child H)) (w : World H)
      → (child' : Child H) × (w' : World H) × (after : Bool) × (apply_rules H rules before child gen
            w
          ≡ some (child', w', after))
  unfolding apply_rules
  apply_rules_total [] s before child gen w = (child, w, before, refl)
  apply_rules_total (rule ∷ rules) s before child gen w =
      let (r, run) = s.0.1 child gen w in
      let told = report H rule.stats r in
      let (child', w', after, rest) =
        apply_rules_total rules s.1 (if is_mutated r.2 then true else before) told.0 gen told.1 in
      (child', w', after, rw (run, apply_rules) rest)

  unmoved_or_told :
      (queue : List (Rule H))
      → AllRules H IsSafe queue
      → (child child' : Child H) (gen : List (Child H)) (w w' : World H) (after : Bool)
      → apply_rules H queue false child gen w ≡ some (child', w', after)
      → (is_mutated (ok (state_of after)) ≡ true) ⊎ (child' ≡ child)
  unfolding is_mutated state_of
  unmoved_or_told queue s child child' gen w w' true h = inl refl
  unmoved_or_told queue s child child' gen w w' false h =
      inr (apply_rules_lem queue s false child child' gen w w' h).1

  -- Over strategies that are safe the scheduler ends, keeps as many strategies as it had, all of
  -- them safe, and reports a mutation or returns the child it was given.
  pub mab_breed_lem :
      (choose : ℕ) (queue : List (Rule H)) (child : Child H) (gen : List (Child H)) (w : World H)
      → AllRules H IsSafe queue
      → (queue' : List (Rule H)) × (child' : Child H) × (w' : World H) × (r : BreedResult)
        × (mab_breed H choose queue child gen w ≡ some (queue', child', w', r))
        × (length queue' ≡ length queue)
        × AllRules H IsSafe queue'
        × ((is_mutated r ≡ true) ⊎ (child' ≡ child))
  unfolding mab_breed
  mab_breed_lem choose queue child gen w s =
      let (taken, left, w₁, took, t) =
        take_items-Taken H accept_under (H.epoch w.heap) choose queue w in
      let (s₁, s₂) =
        take_items-AllRules H IsSafe (2 * length queue + 1) choose (H.epoch w.heap) queue [] taken
          left w w₁ took s tt in
      let (child', w', after, run) = apply_rules_total taken s₁ false child gen w₁ in
      (
        left ++ taken,
        child',
        w',
        ok (state_of after),
        rw (took, mab_breed) (rw (run, mab_breed) refl),
        omega (arith, t.kept, length-append left taken),
        AllRules-append H IsSafe left taken s₂ s₁,
        unmoved_or_told taken s₁ child child' gen w₁ w' after run,
      )
