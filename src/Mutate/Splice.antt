-- ===== src/Mutate/Splice.antt =====
-- crates/lsf-mutate/src/splice.rs, and `SpliceOut` of reduce.rs: runs of statements put in and taken
-- out, and queries combined. `rounds` bounds the loop that draws a run's length: the source's has
-- no bound, and one that hits more often is cut short. `none` is a panic only.
pub mod Draws
pub mod Crossing
pub mod Runs
pub mod Out
pub mod Queries
use ast_sqlite_test.Common.{
  ℕ, zero, suc, ◌+◌, ◌-◌, min, Bool, true, false, ◌&&◌, List, [], ◌∷◌, ◌++◌, Option, none, some,
  leb, ◌==◌, ◌>>=◌, if◌then◌else◌, length, option_map, get_elem?, set, take, drop, is_some,
}
use ast_sqlite_test.Core.Entry.{EntryId}
use ast_sqlite_test.Mutate.Strategy.{
  BreedResult, ok, err, ast_shared, mutated_child, unchanged, state_of, Host, World, flip, draw,
  Child, Breed, MutationStrategy, by_default, ast_mut, with_ast,
}
use ast_sqlite_test.Mutate.Visit.{Visitor, Flow, continue_on}

-- `v.splice(start..end, insert)`
unfoldable pub splice : {A : Type 0} → ℕ → ℕ → List A → List A → List A
splice start end insert v = take start v ++ (insert ++ drop end v)

-- `v[start..end]`
unfoldable pub slice : {A : Type 0} → ℕ → ℕ → List A → List A
slice start end v = take (end - start) (drop start v)

module _ (H : Host) where
  -- `parents.push`
  unfoldable pub push_parent : EntryId → Child H → Child H
  push_parent id child = record child {
    entry = record (child.entry) { parents = child.entry.parents ++ id ∷ [] };
  }

  -- `rng.random_range(..parent_gen.len())` and the entry there
  unfoldable pub pick_entry : List (Child H) → World H → Option (Child H × World H)
  pick_entry parent_gen w = draw H 0 (length parent_gen) w >>= λ d.
      option_map (λ other. (other, d.1)) (get_elem? parent_gen d.0)

  -- One more than the draws that hit before the first that misses, of so many rounds at most.
  unfoldable pub splice_len : ℕ → H.F64 → World H → ℕ × World H
  splice_len zero p_extend w = (1, w)
  splice_len (suc rounds) p_extend w =
      let (hit, w₁) = flip H p_extend w in
      elim hit [
        | true ↦ let (len, w₂) = splice_len rounds p_extend w₁ in (suc len, w₂)
        | false ↦ (1, w₁)
      ]

  unfoldable pub splice_in_from :
      ℕ
      → H.F64
      → List H.Statement
      → Child H
      → Child H
      → World H
      → Option (Child H × World H × BreedResult)
  splice_in_from rounds p_extend tree other child w =
      let from = other.entry.ast.tree in
      if length from == 0
      then some (child, w, ok unchanged)
      else (draw H 0 (length from) w >>= λ start.
          let len = splice_len rounds p_extend start.1 in
          let random_end = min (length from) (start.0 + len.0) in
          if random_end == start.0
          then some (child, len.1, ok unchanged)
          else (draw H 0 (length tree + 1) len.1 >>= λ at. some (
            push_parent other.entry.id
                (with_ast H (splice at.0 at.0 (slice start.0 random_end from) tree) child),
            at.1,
            ok mutated_child,
          )))

  -- `SpliceIn`
  unfoldable pub splice_in : ℕ → H.F64 → MutationStrategy H
  splice_in rounds p_extend = by_default H (λ child parent_gen w. elim (ast_mut H child) [
    | none ↦ some (child, w, err ast_shared)
    | some tree ↦ pick_entry parent_gen w >>= λ other.
        splice_in_from rounds p_extend tree other.0 child other.1
  ])

  unfoldable pub splice_out_tree :
      ℕ → H.F64 → List H.Statement → Child H → World H → Option (Child H × World H × BreedResult)
  splice_out_tree rounds p_extend tree child w =
      if leb (length tree) 4
      then some (child, w, ok unchanged)
      else (draw H 0 (length tree) w >>= λ start.
          let len = splice_len rounds p_extend start.1 in
          let random_end = min (length tree) (start.0 + len.0) in
          if random_end == start.0
          then some (child, len.1, ok unchanged)
          else some (with_ast H (splice start.0 random_end [] tree) child, len.1, ok mutated_child))

  -- `SpliceOut`
  unfoldable pub splice_out : ℕ → H.F64 → MutationStrategy H
  splice_out rounds p_extend = by_default H (λ child parent_gen w. elim (ast_mut H child) [
    | none ↦ some (child, w, err ast_shared)
    | some tree ↦ splice_out_tree rounds p_extend tree child w
  ])

  -- The indices of the statements that are queries
  unfoldable pub query_indices : (H.Statement → Bool) → ℕ → List H.Statement → List ℕ
  query_indices is_query i [] = []
  query_indices is_query i (stmt ∷ stmts) =
      let rest = query_indices is_query (suc i) stmts in if is_query stmt then i ∷ rest else rest

  -- `rng.random_range(..v.len())` and the element there
  unfoldable pub pick : {A : Type 0} → List A → World H → Option (A × World H)
  pick v w = draw H 0 (length v) w >>= λ d. option_map (λ a. (a, d.1)) (get_elem? v d.0)

  -- `SetOps`: `combine op all left right` is the query of the set operation, of which there are three.
  module _ (is_query : H.Statement → Bool)
      (combine : ℕ → Bool → H.Statement → H.Statement → H.Statement) (half : H.F64) where
    unfoldable pub combine_queries :
        List ℕ
        → List ℕ
        → List H.Statement
        → Child H
        → Child H
        → World H
        → Option (Child H × World H × BreedResult)
    combine_queries left right tree other child w = draw H 0 3 w >>= λ op.
        let (all, w₁) = flip H half op.1 in
        pick right w₁ >>= λ r. get_elem? other.entry.ast.tree r.0 >>= λ rq. pick left r.1 >>= λ l.
        get_elem? tree l.0 >>= λ lq. draw H 0 (length tree) l.1 >>= λ rd. some (
          push_parent other.entry.id (with_ast H (set tree rd.0 (combine op.0 all lq rq)) child),
          rd.1,
          ok mutated_child,
        )

    unfoldable pub set_ops_from :
        List H.Statement → Child H → Child H → World H → Option (Child H × World H × BreedResult)
    set_ops_from tree other child w =
        let left = query_indices is_query 0 tree in
        let right = query_indices is_query 0 other.entry.ast.tree in
        if length left == 0
        then some (child, w, ok unchanged)
        else if length right == 0
        then some (child, w, ok unchanged)
        else combine_queries left right tree other child w

    unfoldable pub set_ops : MutationStrategy H
    set_ops = by_default H (λ child parent_gen w. elim (ast_mut H child) [
      | none ↦ some (child, w, err ast_shared)
      | some tree ↦ pick_entry parent_gen w >>= λ other. set_ops_from tree other.0 child other.1
    ])
