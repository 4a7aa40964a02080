-- ===== src/Mutate/Values.antt =====
-- crates/lsf-mutate/src/values.rs: changes at single expressions, and the names of relations.
pub mod Flips
use Prim.Native.String.{String}
use ast_sqlite_test.Common.{
  ℕ, Bool, true, false, not, ◌&&◌, ◌||◌, List, [], ◌∷◌, ◌++◌, Option, none, some, ◌==◌, length,
  get_or, if◌then◌else◌, ℕ_discrete,
}
use ast_sqlite_test.Mutate.Strategy.{
  BreedResult, ok, err, ast_shared, mutated_child, unchanged, Host, World, flip, choose_from, Child,
  Breed, MutationStrategy, by_default, ast_mut, with_ast,
}
use ast_sqlite_test.Mutate.Visit.{Step, edit, continue_on}
use ast_sqlite_test.Mutate.Syntax.{
  BinaryOperator, eq, not_eq, lt, lt_eq, gt, gt_eq, and, or, plus, minus, other, ObjectNamePart,
  identifier, function, Syntax,
}

unfoldable pub flipped : BinaryOperator → BinaryOperator
flipped eq = not_eq
flipped not_eq = eq
flipped lt = lt_eq
flipped lt_eq = lt
flipped gt = gt_eq
flipped gt_eq = gt
flipped and = or
flipped or = and
flipped plus = minus
flipped minus = plus
flipped (other n) = other n

pub BinaryOperator-discrete : Discrete BinaryOperator
BinaryOperator-discrete = hlevel (ℕ_discrete)

unfoldable pub same_op : BinaryOperator → BinaryOperator → Bool
same_op op op' = elim (BinaryOperator-discrete op op') [ yes h ↦ true | no h ↦ false ]

abbrev pub num_bounds : List String
num_bounds =
    "0" ∷ "1" ∷ "-1" ∷ "2147483647" ∷ "-2147483648" ∷ "9223372036854775807" ∷ "-9223372036854775808"
    ∷ []

abbrev pub types : List String
types = "INTEGER" ∷ "TEXT" ∷ "REAL" ∷ "BLOB" ∷ "NUMERIC" ∷ "BOOLEAN" ∷ []

-- The last name of each relation; an empty name has none.
unfoldable pub last_ident : List ObjectNamePart → Option String
last_ident [] = none
last_ident (identifier value ∷ []) = some value
last_ident (function name args ∷ []) = none
last_ident (part ∷ next ∷ parts) = last_ident (next ∷ parts)

unfoldable pub idents : List (List ObjectNamePart) → List String
idents [] = []
idents (rel ∷ rels) =
    let rest = idents rels in elim (last_ident rel) [ none ↦ rest | some value ↦ value ∷ rest ]

unfoldable pub force_args : String → List (Option String) → List (Option String)
force_args ident [] = []
force_args ident (none ∷ args) = none ∷ force_args ident args
force_args ident (some value ∷ args) = some ident ∷ force_args ident args

unfoldable pub force_parts : String → List ObjectNamePart → List ObjectNamePart
force_parts ident [] = []
force_parts ident (identifier value ∷ parts) = identifier ident ∷ force_parts ident parts
force_parts ident (function name args ∷ parts) =
    function ident (force_args ident args) ∷ force_parts ident parts

module _ (H : Host) (X : Syntax H) where
  unfoldable pub numeric_step : H.F64 → Step H X.exprs
  numeric_step mutate_chance expr w =
      if X.is_number expr
      then (let (hit, w₁) = flip H mutate_chance w in
          let (n, w₂) = choose_from H num_bounds "0" w₁ in
          if hit then (X.set_number n expr, w₂, true) else (expr, w₁, false))
      else (expr, w, false)

  -- `NumericBounds`
  unfoldable pub numeric_bounds : H.F64 → MutationStrategy H
  numeric_bounds mutate_chance = by_default H (edit H X.exprs (numeric_step mutate_chance))

  unfoldable pub flip_step : H.F64 → Step H X.exprs
  flip_step flip_chance expr w = elim (X.binary_op expr) [
    | none ↦ (expr, w, false)
    | some op ↦
        let (hit, w₁) = flip H flip_chance w in
        if hit && not (same_op op (flipped op))
        then (X.set_op (flipped op) expr, w₁, true)
        else (expr, w₁, false)
  ]

  -- `OperatorFlip`
  unfoldable pub operator_flip : H.F64 → MutationStrategy H
  operator_flip flip_chance = by_default H (edit H X.exprs (flip_step flip_chance))

  unfoldable pub null_step : H.F64 → Step H X.exprs
  null_step mutation_chance expr w =
      if X.is_value expr || X.is_identifier expr
      then (let (hit, w₁) = flip H mutation_chance w in
          if hit then (X.null, w₁, true) else (expr, w₁, false))
      else (expr, w, false)

  -- `NullInject`
  unfoldable pub null_inject : H.F64 → MutationStrategy H
  null_inject mutation_chance = by_default H (edit H X.exprs (null_step mutation_chance))

  unfoldable pub cast_step : H.F64 → Step H X.exprs
  cast_step mutation_chance expr w =
      if X.is_cast expr
      then (expr, w, false)
      else (let (hit, w₁) = flip H mutation_chance w in
          let (ty, w₂) = choose_from H types "INTEGER" w₁ in
          if hit then (X.cast ty expr, w₂, true) else (expr, w₁, false))

  -- `TypeCast`
  unfoldable pub type_cast : H.F64 → MutationStrategy H
  type_cast mutation_chance = by_default H (edit H X.exprs (cast_step mutation_chance))

  -- `ForceIdent`, at a tree that it may change: it counts as a mutation whether or not a name was
  -- another one before.
  unfoldable pub force_ident_tree :
      List H.Statement → Child H → World H → Option (Child H × World H × BreedResult)
  force_ident_tree tree child w =
      let relation = idents (X.relations.nodes tree) in
      let (rd_ident, w₁) = choose_from H relation "" w in
      if length relation == 0
      then some (child, w, ok unchanged)
      else (let (tree', _) =
            X.relations.visit_mut (λ rel (s : Unit {0}). (force_parts rd_ident rel, s, continue_on))
              tree tt in
          some (with_ast H tree' child, w₁, ok mutated_child))

  unfoldable pub force_ident : MutationStrategy H
  force_ident = by_default H (λ child parent_gen w. elim (ast_mut H child) [
    | none ↦ some (child, w, err ast_shared)
    | some tree ↦ force_ident_tree tree child w
  ])
