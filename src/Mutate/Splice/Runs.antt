-- ===== src/Mutate/Splice/Runs.antt =====
-- What `SpliceIn` puts in.
use ast_sqlite_test.Common.{
  refl, if◌then◌else◌, ℕ, ◌+◌, ◌-◌, ◌≤◌, ◌<◌, ◌≡◌, min, true, false, List, ◌++◌, some, ◌==◌, length,
  arith, inl, inr, ◌⊎◌, ℕ_discrete, [], ◌∷◌,
}
use ast_sqlite_test.Feedback.Outcome.{mutated, noop}
use ast_sqlite_test.Mutate.Strategy.{
  fire_parent_hooks, BreedResult, ok, err, ast_shared, breed_by_default, mutated_child, unchanged,
  is_mutated, Host, World, Child, by_default, with_ast,
}
use ast_sqlite_test.Mutate.Combinators.Idle.{IsStrict}
use ast_sqlite_test.Mutate.Splice.{
  push_parent, splice_len, splice, slice, splice_in_from, splice_in,
}
use ast_sqlite_test.Mutate.Splice.Draws.{
  length-slice, length-splice, draw_lem, draw-some, splice_len_pos, ast_mut_count,
}
use ast_sqlite_test.Mutate.Splice.Crossing.{pick_entry-some, Crossed, crossing-IsStrict}

module _ (H : Host) where
  -- What a splice put in: a run of another entry's statements, at a place of the child, which has
  -- that entry as a parent more, and is otherwise what it was.
  pub record PutIn (other child child' : Child H) : Type 0 where
    pub start : ℕ
    pub end : ℕ
    pub at : ℕ
    pub some_run : start < end
    pub within : end ≤ length other.entry.ast.tree
    pub place : at ≤ length child.entry.ast.tree
    pub tree_after :
        child'.entry.ast.tree
        ≡ splice at at (slice start end other.entry.ast.tree) child.entry.ast.tree
    pub parents_after : child'.entry.parents ≡ child.entry.parents ++ other.entry.id ∷ []
    pub result :
        child'
        ≡ push_parent H other.entry.id (
            with_ast H
              (splice at at (slice start end other.entry.ast.tree) child.entry.ast.tree)
              child)
    pub longer : length child'.entry.ast.tree ≡ length child.entry.ast.tree + (end - start)

  -- How a splice with another entry ends
  abbrev pub SplicedWith : Child H → Child H → Child H → BreedResult → Type 0
  SplicedWith other child child' r =
      ((length other.entry.ast.tree ≡ 0) × (r ≡ ok unchanged) × (child' ≡ child))
      ⊎ ((r ≡ ok mutated_child) × PutIn other child child')

  splice_in_from_total :
      (rounds : ℕ) (p : H.F64) (other child : Child H) (w : World H)
      → (child' : Child H) × (w' : World H) × (r : BreedResult) × (splice_in_from H rounds p
            (child.entry.ast.tree)
            other
            child
            w
          ≡ some (child', w', r))
        × SplicedWith other child child' r
  unfolding splice_in_from push_parent with_ast
  splice_in_from_total rounds p other child w =
      let from = other.entry.ast.tree in
      let tree = child.entry.ast.tree in
      elim (ℕ_discrete (length from) 0) [
        | yes e ↦
            let e' : (length from == 0) ≡ true = ground (arith, e) in
            (child, w, ok unchanged, rw (e', splice_in_from) refl, inl (e, refl, refl))
        | no ne ↦
            let ne' : (length from == 0) ≡ false = ground (arith, ne) in
            let (start, w₁, drawn) = draw-some H 0 (length from) w (omega (arith, ne)) in
            let first = draw_lem H 0 (length from) start w w₁ drawn in
            let (len, w₂) = splice_len H rounds p w₁ in
            let pos = splice_len_pos H rounds p w₁ in
            let end = min (length from) (start + len) in
            let moved : (end == start) ≡ false = ground (arith, first, pos) in
            let (at, w₃, placed) = draw-some H 0 (length tree + 1) w₂ (omega arith) in
            let spot = draw_lem H 0 (length tree + 1) at w₂ w₃ placed in
            let size = length-slice start end from (omega arith) in
            (
              push_parent H other.entry.id
                  (with_ast H (splice at at (slice start end from) tree) child),
              w₃,
              ok mutated_child,
              rw (ne', splice_in_from)
                  (rw (drawn, splice_in_from)
                    (rw (moved, splice_in_from) (rw (placed, splice_in_from) refl))),
              inr (
                refl,
                record {
                  start = start;
                  end = end;
                  at = at;
                  some_run = omega (arith, first, pos);
                  within = omega arith;
                  place = omega (arith, spot);
                  tree_after = refl;
                  parents_after = refl;
                  result = refl;
                  longer = omega (
                    arith,
                    spot,
                    size,
                    length-splice at at (slice start end from) tree (omega arith)
                        (omega (arith, spot)),
                  );
                },
              ),
            )
      ]

  pub splice_in_lem :
      (rounds : ℕ) (p : H.F64) (child : Child H) (gen : List (Child H)) (w : World H)
      → 0 < length gen
      → (child' : Child H) × (w' : World H) × (r : BreedResult) × ((splice_in H rounds p).breed
            child gen w
          ≡ some (child', w', r))
        × Crossed H SplicedWith gen child child' r
  unfolding splice_in by_default breed_by_default
  splice_in_lem rounds p child gen w h = elim (ast_mut_count H child) [
    | inl (gone, shared) ↦ (
      child,
      fire_parent_hooks H noop child w,
      err ast_shared,
      rw (gone, breed_by_default) refl,
      inl (shared, refl, refl),
    )
    | inr (here, alone) ↦
        let (other, w₁, i, picked, at) = pick_entry-some H gen w h in
        let (child', w₂, r, run, end) = splice_in_from_total rounds p other child w₁ in
        (
          child',
          fire_parent_hooks H (if is_mutated r then mutated else noop) child' w₂,
          r,
          rw (here, breed_by_default)
              (rw (picked, breed_by_default) (rw (run, breed_by_default) refl)),
          inr (alone, (i, other, at, end)),
        )
  ]

  pub splice_in-IsStrict : (rounds : ℕ) (p : H.F64) → IsStrict H (splice_in H rounds p).breed
  unfolding splice_in
  splice_in-IsStrict rounds p =
      crossing-IsStrict H SplicedWith (splice_in_from H rounds p)
        (λ other child child' r s q. elim s [
          | inl (none_there, e, same) ↦ same
          | inr (m, put) ↦ absurd (ground (arith, m, q))
        ])
        (splice_in_lem rounds p)
