-- ===== src/Mutate/Splice/Out.antt =====
-- What `SpliceOut` takes out.
use ast_sqlite_test.Common.{
  ◌∙◌, ◌≢◌, refl, if◌then◌else◌, ℕ, ◌+◌, ◌-◌, ◌≤◌, ◌<◌, ◌≡◌, min, false, List, [], some, leb, ◌==◌,
  length, arith, Bool-cases, inl, inr, ◌⊎◌,
}
use ast_sqlite_test.Feedback.Outcome.{mutated, noop}
use ast_sqlite_test.Mutate.Strategy.{
  BreedResult, ok, unchanged, err, ast_shared, fire_parent_hooks, breed_by_default, mutated_child,
  is_mutated, Host, World, Child, by_default, with_ast,
}
use ast_sqlite_test.Mutate.Combinators.Idle.{IsStrict}
use ast_sqlite_test.Mutate.Splice.{splice_len, splice, splice_out_tree, splice_out}
use ast_sqlite_test.Mutate.Splice.Draws.{
  length-splice, draw_lem, draw-some, splice_len_pos, ast_mut_count,
}
use ast_sqlite_test.Mutate.Splice.Crossing.{same_run}

module _ (H : Host) where
  -- What a splice takes out: a run of the child's own statements, and nothing else of it changes.
  pub record TakenOut (child child' : Child H) : Type 0 where
    pub start : ℕ
    pub end : ℕ
    pub some_run : start < end
    pub within : end ≤ length child.entry.ast.tree
    pub long_enough : 4 < length child.entry.ast.tree
    pub tree_after : child'.entry.ast.tree ≡ splice start end [] child.entry.ast.tree
    pub parents_after : child'.entry.parents ≡ child.entry.parents
    pub result : child' ≡ with_ast H (splice start end [] child.entry.ast.tree) child
    pub shorter : length child'.entry.ast.tree + (end - start) ≡ length child.entry.ast.tree

  -- How taking out ends for a child of its own tree
  abbrev pub CutDown : Child H → Child H → BreedResult → Type 0
  CutDown child child' r =
      ((length child.entry.ast.tree ≤ 4) × (r ≡ ok unchanged) × (child' ≡ child))
      ⊎ ((r ≡ ok mutated_child) × TakenOut child child')

  splice_out_tree_total :
      (rounds : ℕ) (p : H.F64) (child : Child H) (w : World H)
      → (child' : Child H) × (w' : World H) × (r : BreedResult) × (splice_out_tree H rounds p
            (child.entry.ast.tree)
            child
            w
          ≡ some (child', w', r))
        × CutDown child child' r
  unfolding splice_out_tree with_ast
  splice_out_tree_total rounds p child w =
      let tree = child.entry.ast.tree in
      elim (Bool-cases (leb (length tree) 4)) [
        | inl few ↦ (
          child,
          w,
          ok unchanged,
          rw (few, splice_out_tree) refl,
          inl (ground (arith, few), refl, refl),
        )
        | inr many ↦
            let long : 4 < length tree = ground (arith, many) in
            let (start, w₁, drawn) = draw-some H 0 (length tree) w (omega (arith, long)) in
            let first = draw_lem H 0 (length tree) start w w₁ drawn in
            let (len, w₂) = splice_len H rounds p w₁ in
            let pos = splice_len_pos H rounds p w₁ in
            let end = min (length tree) (start + len) in
            let moved : (end == start) ≡ false = ground (arith, first, pos) in
            (
              with_ast H (splice start end [] tree) child,
              w₂,
              ok mutated_child,
              rw (many, splice_out_tree)
                  (rw (drawn, splice_out_tree) (rw (moved, splice_out_tree) refl)),
              inr (
                refl,
                record {
                  start = start;
                  end = end;
                  some_run = omega (arith, first, pos);
                  within = omega arith;
                  long_enough = long;
                  tree_after = refl;
                  parents_after = refl;
                  result = refl;
                  shorter =
                      omega
                        (arith, first, length-splice start end [] tree (omega arith) (omega arith));
                },
              ),
            )
      ]

  pub splice_out_lem :
      (rounds : ℕ) (p : H.F64) (child : Child H) (gen : List (Child H)) (w : World H)
      → (child' : Child H) × (w' : World H) × (r : BreedResult) × ((splice_out H rounds p).breed
            child gen w
          ≡ some (child', w', r))
        × (((child.entry.ast.count ≢ 1) × (r ≡ err ast_shared) × (child' ≡ child))
            ⊎ ((child.entry.ast.count ≡ 1) × CutDown child child' r))
  unfolding splice_out by_default breed_by_default
  splice_out_lem rounds p child gen w = elim (ast_mut_count H child) [
    | inl (gone, shared) ↦ (
      child,
      fire_parent_hooks H noop child w,
      err ast_shared,
      rw (gone, breed_by_default) refl,
      inl (shared, refl, refl),
    )
    | inr (here, alone) ↦
        let (child', w₂, r, run, end) = splice_out_tree_total rounds p child w in
        (
          child',
          fire_parent_hooks H (if is_mutated r then mutated else noop) child' w₂,
          r,
          rw (here, breed_by_default) (rw (run, breed_by_default) refl),
          inr (alone, end),
        )
  ]

  pub splice_out-IsStrict : (rounds : ℕ) (p : H.F64) → IsStrict H (splice_out H rounds p).breed
  splice_out-IsStrict rounds p child gen w child' w' r h q =
      let (c, v, r', run, end) = splice_out_lem rounds p child gen w in
      let (same, told) = same_run H h run in
      let told' : is_mutated r' ≡ false = rw (← told) q in
      same ∙ elim end [
        | inl (shared, e, kept) ↦ kept
        | inr (alone, inl (few, e, kept)) ↦ kept
        | inr (alone, inr (m, out)) ↦ absurd (ground (arith, m, told'))
      ]
