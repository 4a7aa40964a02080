-- ===== src/Tests/Hosts.antt =====
-- A concrete host: statements are numbers, a chance is a whole number, and the generator is the list
-- of the numbers that it draws.
use Prim.Native.Nat.{compare}
use ast_sqlite_test.Common.{
  ℕ, ◌+◌, ◌-◌, ◌*◌, ◌/◌, ◌≤◌, ◌<◌, ◌≡◌, refl, min, Bool, true, false, List, [], ◌∷◌, none, some,
  ◌==◌, arith,
}
use ast_sqlite_test.Mutate.Strategy.{Host, World, Child}
use ast_sqlite_test.Mutate.Visit.{Visitor, Flow, continue_on, break_off}
use ast_sqlite_test.Mutate.Syntax.{Syntax}
use ast_sqlite_test.Mutate.Trees.{AstNode}
use ast_sqlite_test.Mutate.Json.{object, end}

abbrev roll_bool : ℕ → List ℕ → Bool × List ℕ
roll_bool chance [] = (false, [])
roll_bool chance (x ∷ xs) = (x == 1, xs)

abbrev roll_range : ℕ → ℕ → List ℕ → ℕ × List ℕ
roll_range low high [] = (low, [])
roll_range low high (x ∷ xs) = (min (high - 1) (low + x), xs)

pub roll_in_range :
    (low high : ℕ) (g : List ℕ)
    → low < high
    → (low ≤ (roll_range low high g).0) × ((roll_range low high g).0 < high)
roll_in_range low high [] h = (omega arith, h)
roll_in_range low high (x ∷ xs) h = (omega (arith, h), omega (arith, h))

-- The heap counts the arms that it made and keeps the clock at nothing.
abbrev pub dice : Host
dice = record {
  Statement = ℕ;
  F64 = ℕ;
  of_nat = λ n. n;
  minus_half = 0;
  add = λ a b. a + b;
  mul = λ a b. a * b;
  div = λ a b. a / b;
  exp = λ a. a + 1;
  partial_cmp = λ a b. some (compare a b);
  Heap = ℕ;
  epoch = λ heap. 20;
  new_arm = λ heap. (heap + 1, heap);
  on_mutate = λ outcome hook heap. heap;
  calculate_score = λ hook heap. (heap, hook);
  Generator = List ℕ;
  random_bool = roll_bool;
  random_range = roll_range;
  in_range = roll_in_range;
}

-- A closure's result where the visit goes on, or where it stops
abbrev resume : {A : Type 0} {S : Type 0} → List A → A × S × Flow → (S → List A × S) → List A × S
resume ns (n', s', continue_on) rest = (n' ∷ (rest s').0, (rest s').1)
resume ns (n', s', break_off) rest = (n' ∷ ns, s')

abbrev visit_list : {A : Type 0} {S : Type 0} → (A → S → A × S × Flow) → List A → S → List A × S
visit_list f [] s = ([], s)
visit_list f (n ∷ ns) s = resume ns (f n s) (λ s'. visit_list f ns s')

resume_unmoved :
    {A : Type 0} {S : Type 0} (P : S → Type 0) (n : A) (ns : List A) (s : S) (r : A × S × Flow)
    (rest : S → List A × S)
    → (P r.1 → P s × (r.0 ≡ n))
    → ((t : S) → P (rest t).1 → P t × ((rest t).0 ≡ ns))
    → P (resume ns r rest).1
    → P s × ((resume ns r rest).0 ≡ n ∷ ns)
resume_unmoved P n ns s (n', s', continue_on) rest step later h =
    let (held, same) = later s' h in let (first, here) = step held in (first, cc (here, same))
resume_unmoved P n ns s (n', s', break_off) rest step later h =
    let (first, here) = step h in (first, cc here)

pub visit_list_unmoved :
    {A : Type 0} {S : Type 0} (P : S → Type 0) (f : A → S → A × S × Flow) (tree : List A) (s : S)
    → ((n : A) (t : S) → P (f n t).1 → P t × ((f n t).0 ≡ n))
    → P (visit_list f tree s).1
    → P s × ((visit_list f tree s).0 ≡ tree)
visit_list_unmoved P f [] s step h = (h, refl)
visit_list_unmoved P f (n ∷ ns) s step h =
    resume_unmoved P n ns s (f n s) (λ s'. visit_list f ns s') (step n s)
      (λ t h'. visit_list_unmoved P f ns t step h') h

-- Every statement is one node.
abbrev pub statements : Visitor (List ℕ) ℕ
statements = record { nodes = λ tree. tree; visit_mut = visit_list; unmoved = visit_list_unmoved }

abbrev pub nowhere : {Tree Node : Type 0} → Visitor Tree Node
nowhere = record {
  nodes = λ tree. [];
  visit_mut = λ f tree s. (tree, s);
  unmoved = λ P f tree s step h. (h, refl);
}

-- Expressions are the statements; a number is one, and so is a value.
abbrev pub numbers : Syntax dice
numbers = record {
  Expr = ℕ;
  exprs = statements;
  is_number = λ e. true;
  set_number = λ value e. e + 100;
  is_value = λ e. true;
  is_identifier = λ e. false;
  null = 0;
  is_cast = λ e. false;
  cast = λ ty e. e + 1000;
  binary_op = λ e. none;
  set_op = λ op e. e;
  relations = nowhere;
  same_expr = λ e e'. e == e';
  expr_kind = λ e. 0;
  right = λ e. none;
  set_right = λ e e'. e';
  is_subquery = λ e. false;
  same_name = λ r r'. false;
  statements = statements;
  relations_in = nowhere;
  is_create = λ s. false;
  created_name = λ s. none;
  if_not_exists = λ s. true;
  set_if_not_exists = λ s. s;
  set_if_not_exists_again = λ s h. refl;
}

-- A node's JSON is an object without entries.
abbrev pub nodes : AstNode dice
nodes = record {
  Node = ℕ;
  visitor = statements;
  discriminant = λ n. 0;
  to_value = λ n. some (object end);
  from_value = λ v. some 7;
  arbitrary = λ g. (some 9, g);
}

abbrev pub entry_of : ℕ → ℕ → List ℕ → Child dice
entry_of id count tree = record {
  entry = record { id = id; parents = []; ast = record { tree = tree; count = count } };
  applied_rule_stats = [];
  parent_stats = [];
}

abbrev pub with_draws : List ℕ → World dice
with_draws draws = record { heap = 0; rng = draws }
