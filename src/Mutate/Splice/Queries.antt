-- ===== src/Mutate/Splice/Queries.antt =====
-- What `SetOps` combines.
use ast_sqlite_test.Common.{
  ◌++◌, get_elem?-none, ℕ, zero, suc, ◌-◌, ◌≤◌, ◌<◌, ◌≡◌, refl, Bool, true, false, List, [], ◌∷◌,
  some, ◌==◌, if◌then◌else◌, length, get_elem?, set, arith, Bool-cases, Option-cases, inl, inr, ◌⊎◌,
}
use ast_sqlite_test.Feedback.Outcome.{mutated, noop}
use ast_sqlite_test.Mutate.Strategy.{
  BreedResult, ok, unchanged, err, ast_shared, fire_parent_hooks, breed_by_default, mutated_child,
  is_mutated, Host, World, flip, Child, by_default, with_ast,
}
use ast_sqlite_test.Mutate.Combinators.Idle.{IsStrict}
use ast_sqlite_test.Mutate.Splice.{
  query_indices, pick, combine_queries, set_ops_from, set_ops, push_parent,
}
use ast_sqlite_test.Mutate.Splice.Draws.{draw_lem, draw-some, ast_mut_count}
use ast_sqlite_test.Mutate.Splice.Crossing.{pick_entry-some, Crossed, crossing-IsStrict}

module _ (H : Host) (is_query : H.Statement → Bool)
    (combine : ℕ → Bool → H.Statement → H.Statement → H.Statement) (half : H.F64) where
  -- An index of the list is that of a query.
  query_indices_lem :
      (base : ℕ) (stmts : List H.Statement) (n i : ℕ)
      → get_elem? (query_indices H is_query base stmts) n ≡ some i
      → (base ≤ i)
        × ((stmt : H.Statement) × (get_elem? stmts (i - base) ≡ some stmt) × (is_query stmt ≡ true))
  unfolding query_indices
  query_indices_lem base [] n i h = absurd (ground (arith, h))
  query_indices_lem base (stmt ∷ stmts) zero i h = elim (Bool-cases (is_query stmt)) [
    | inl t ↦
        let here : i ≡ base = ground (arith, h, t) in
        let none_before : i - base ≡ 0 = omega (arith, here) in
        (omega (arith, here), (stmt, rw none_before refl, t))
    | inr f ↦
        let (low, (s, at, is)) = query_indices_lem (suc base) stmts zero i (ground (arith, h, f)) in
        let next : i - base ≡ suc (i - suc base) = omega (arith, low) in
        (omega (arith, low), (s, rw next at, is))
  ]
  query_indices_lem base (stmt ∷ stmts) (suc n) i h =
      let m = if is_query stmt then n else suc n in
      let (low, (s, at, is)) = query_indices_lem (suc base) stmts m i (ground (arith, h)) in
      let next : i - base ≡ suc (i - suc base) = omega (arith, low) in
      (omega (arith, low), (s, rw next at, is))

  -- A draw of a query's index
  pick_query :
      (stmts : List H.Statement) (w : World H)
      → (length (query_indices H is_query 0 stmts) == 0) ≡ false
      → (i : ℕ) × (w' : World H) × (stmt : H.Statement) × (pick H
            (query_indices H is_query 0 stmts)
            w
          ≡ some (i, w'))
        × (get_elem? stmts i ≡ some stmt)
        × (is_query stmt ≡ true)
  unfolding pick
  pick_query stmts w many =
      let indices = query_indices H is_query 0 stmts in
      let (n, w', drawn) = draw-some H 0 (length indices) w (ground (arith, many)) in
      let low = draw_lem H 0 (length indices) n w w' drawn in
      elim (Option-cases (get_elem? indices n)) [
        | inl gone ↦ absurd (get_elem?-none indices n low.1 gone)
        | inr (i, there) ↦
            let (below, (stmt, here, is)) = query_indices_lem 0 stmts n i there in
            let same : i - 0 ≡ i = omega arith in
            (i, w', stmt, rw drawn (rw there refl), rw (← same) here, is)
      ]

  -- What a set operation put in: a query of the child and one of another entry, combined, in the
  -- place of one of the child's statements; the other entry is a parent more, and nothing else
  -- of the child changes.
  pub record Combined (other child child' : Child H) : Type 0 where
    pub left_at : ℕ
    pub right_at : ℕ
    pub left : H.Statement
    pub right : H.Statement
    pub op : ℕ
    pub all : Bool
    pub at : ℕ
    pub left_of_child : get_elem? child.entry.ast.tree left_at ≡ some left
    pub right_of_other : get_elem? other.entry.ast.tree right_at ≡ some right
    pub left_query : is_query left ≡ true
    pub right_query : is_query right ≡ true
    pub known_op : op < 3
    pub place : at < length child.entry.ast.tree
    pub tree_after :
        child'.entry.ast.tree ≡ set (child.entry.ast.tree) at (combine op all left right)
    pub parents_after : child'.entry.parents ≡ child.entry.parents ++ other.entry.id ∷ []
    pub result :
        child'
        ≡ push_parent H other.entry.id
            (with_ast H (set (child.entry.ast.tree) at (combine op all left right)) child)

  length-query_indices :
      (base : ℕ) (stmts : List H.Statement)
      → length (query_indices H is_query base stmts) ≤ length stmts
  unfolding query_indices
  length-query_indices base [] = omega arith
  length-query_indices base (stmt ∷ stmts) = ground (arith, length-query_indices (suc base) stmts)

  combine_queries_lem :
      (other child : Child H) (w : World H)
      → (length (query_indices H is_query 0 child.entry.ast.tree) == 0) ≡ false
      → (length (query_indices H is_query 0 other.entry.ast.tree) == 0) ≡ false
      → (child' : Child H) × (w' : World H) × (combine_queries H is_query combine half
            (query_indices H is_query 0 child.entry.ast.tree)
            (query_indices H is_query 0 other.entry.ast.tree)
            (child.entry.ast.tree)
            other
            child
            w
          ≡ some (child', w', ok mutated_child))
        × Combined other child child'
  unfolding combine_queries push_parent with_ast
  combine_queries_lem other child w some_left some_right =
      let tree = child.entry.ast.tree in
      let (op, w₁, drawn) = draw-some H 0 3 w (omega arith) in
      let (all, w₂) = flip H half w₁ in
      let (ri, w₃, rq, rpick, rat, ris) = pick_query other.entry.ast.tree w₂ some_right in
      let (li, w₄, lq, lpick, lat, lis) = pick_query tree w₃ some_left in
      let longer = length-query_indices 0 tree in
      let (at, w₅, placed) = draw-some H 0 (length tree) w₄ (ground (arith, longer, some_left)) in
      (
        push_parent H other.entry.id (with_ast H (set tree at (combine op all lq rq)) child),
        w₅,
        rw drawn (rw rpick (rw rat (rw lpick (rw lat (rw placed refl))))),
        record {
          left_at = li;
          right_at = ri;
          left = lq;
          right = rq;
          op = op;
          all = all;
          at = at;
          left_of_child = lat;
          right_of_other = rat;
          left_query = lis;
          right_query = ris;
          known_op = (draw_lem H 0 3 op w w₁ drawn).1;
          place = (draw_lem H 0 (length tree) at w₄ w₅ placed).1;
          tree_after = refl;
          parents_after = refl;
          result = refl;
        },
      )

  -- Whether a list has no query
  abbrev pub NoQuery : List H.Statement → Type 0
  NoQuery stmts = query_indices H is_query 0 stmts ≡ []

  -- How a set operation with another entry ends
  abbrev pub CombinedWith : Child H → Child H → Child H → BreedResult → Type 0
  CombinedWith other child child' r =
      ((NoQuery child.entry.ast.tree ⊎ NoQuery other.entry.ast.tree)
        × (r ≡ ok unchanged)
        × (child' ≡ child))
      ⊎ ((r ≡ ok mutated_child) × Combined other child child')

  none_left : (indices : List ℕ) → (length indices == 0) ≡ true → indices ≡ []
  none_left [] h = refl
  none_left (i ∷ indices) h = absurd (ground (arith, h))

  set_ops_from_total :
      (other child : Child H) (w : World H)
      → (child' : Child H) × (w' : World H) × (r : BreedResult) × (set_ops_from H is_query combine
            half
            (child.entry.ast.tree)
            other
            child
            w
          ≡ some (child', w', r))
        × CombinedWith other child child' r
  unfolding set_ops_from
  set_ops_from_total other child w =
      let lefts = query_indices H is_query 0 child.entry.ast.tree in
      let rights = query_indices H is_query 0 other.entry.ast.tree in
      elim (Bool-cases (length lefts == 0)) [
        | inl few ↦ (
          child,
          w,
          ok unchanged,
          rw (few, set_ops_from) refl,
          inl (inl (none_left lefts few), refl, refl),
        )
        | inr many ↦ elim (Bool-cases (length rights == 0)) [
          | inl few ↦ (
            child,
            w,
            ok unchanged,
            rw many (rw few refl),
            inl (inr (none_left rights few), refl, refl),
          )
          | inr more ↦
              let (child', w', run, put) = combine_queries_lem other child w many more in
              (child', w', ok mutated_child, rw many (rw more run), inr (refl, put))
        ]
      ]

  -- Over a generation that is not empty, combining ends without a panic. A shared tree is refused
  -- with an error and the child is kept; otherwise an entry of the generation is taken. Where the
  -- child or that entry has no query, the child is kept and the result says so. Where both have
  -- one, the result says that the child is mutated: one of its statements gave way to a query of
  -- its own combined with a query of that entry, and that entry is the last of its parents now.
  pub set_ops_lem :
      (child : Child H) (gen : List (Child H)) (w : World H)
      → 0 < length gen
      → (child' : Child H) × (w' : World H) × (r : BreedResult) × ((set_ops H is_query combine
              half).breed
            child gen w
          ≡ some (child', w', r))
        × Crossed H CombinedWith gen child child' r
  unfolding set_ops by_default breed_by_default
  set_ops_lem child gen w h = elim (ast_mut_count H child) [
    | inl (gone, shared) ↦ (
      child,
      fire_parent_hooks H noop child w,
      err ast_shared,
      rw (gone, breed_by_default) refl,
      inl (shared, refl, refl),
    )
    | inr (here, alone) ↦
        let (other, w₁, i, picked, at) = pick_entry-some H gen w h in
        let (child', w₂, r, run, end) = set_ops_from_total other child w₁ in
        (
          child',
          fire_parent_hooks H (if is_mutated r then mutated else noop) child' w₂,
          r,
          rw (here, breed_by_default)
              (rw (picked, breed_by_default) (rw (run, breed_by_default) refl)),
          inr (alone, (i, other, at, end)),
        )
  ]

  pub set_ops-IsStrict : IsStrict H (set_ops H is_query combine half).breed
  unfolding set_ops
  set_ops-IsStrict =
      crossing-IsStrict H CombinedWith (set_ops_from H is_query combine half)
        (λ other child child' r s q. elim s [
          | inl (none_there, e, same) ↦ same
          | inr (m, put) ↦ absurd (ground (arith, m, q))
        ])
        set_ops_lem
