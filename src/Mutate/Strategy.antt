-- ===== src/Mutate/Strategy.antt =====
-- crates/lsf-mutate/src/lib.rs: what a strategy is, what it reports, and the hooks that a breeding
-- fires. `Shared` is an `Arc` with its count of references; a step on one that is shared is
-- refused. Random draws, arms and floating point are the operations of `Host`.
use Prim.Native.Nat.{Ordering}
use ast_sqlite_test.Common.{
  ℕ, ◌≤◌, ◌<◌, Bool, true, false, List, [], ◌∷◌, Option, none, some, ltb, ◌==◌, ◌>>=◌, length,
  get_or, if◌then◌else◌,
}
use ast_sqlite_test.Core.Entry.{EntryId, RawEntry}
use ast_sqlite_test.Feedback.Outcome.{TestOutcome, mutated, noop, TestableEntry, Handle}

pub data MutationState : Type 0 where
  mutated_child unchanged : MutationState

unfoldable pub into_option : MutationState → Option (Unit {0})
into_option mutated_child = some tt
into_option unchanged = none

unfoldable pub into_bool : MutationState → Bool
into_bool s = elim (into_option s) [ none ↦ false | some _ ↦ true ]

pub data MutationError : Type 0 where
  no_parent invalid_ast : EntryId → MutationError
  no_op ast_shared : MutationError

-- `Result<MutationState, MutationError>`
pub data BreedResult : Type 0 where
  ok : MutationState → BreedResult
  err : MutationError → BreedResult

-- `Ok(MutationState::Mutated)`
abbrev pub is_mutated : BreedResult → Bool
is_mutated (ok mutated_child) = true
is_mutated (ok unchanged) = false
is_mutated (err e) = false

abbrev pub state_of : Bool → MutationState
state_of true = mutated_child
state_of false = unchanged

pub record Shared (T : Type 0) : Type 0 where
  pub tree : T
  pub count : ℕ

-- `Arc::get_mut`
unfoldable pub get_mut : {T : Type 0} → Shared T → Option T
get_mut shared = if shared.count == 1 then some (shared.tree) else none

-- `rand` draws from a range that is not empty, and panics on one that is (`draw` below); the
-- chances that a strategy gives `random_bool` are in range.
pub record Host : Type 1 where
  -- `sqlparser::ast::Statement`
  pub Statement : Type 0
  pub F64 : Type 0
  pub of_nat : ℕ → F64
  pub minus_half : F64
  pub add : F64 → F64 → F64
  pub mul : F64 → F64 → F64
  pub div : F64 → F64 → F64
  pub exp : F64 → F64
  pub partial_cmp : F64 → F64 → Option Ordering
  pub Heap : Type 0
  pub epoch : Heap → ℕ
  pub new_arm : Heap → Heap × Handle
  pub on_mutate : TestOutcome → Handle → Heap → Heap
  pub calculate_score : Handle → Heap → Heap × F64
  pub Generator : Type 0
  pub random_bool : F64 → Generator → Bool × Generator
  pub random_range : ℕ → ℕ → Generator → ℕ × Generator
  pub in_range :
      (low high : ℕ) (g : Generator)
      → low < high
      → (low ≤ (random_range low high g).0) × ((random_range low high g).0 < high)

module _ (H : Host) where
  -- What a strategy is lent besides the entries.
  pub record World : Type 0 where
    pub heap : H.Heap
    pub rng : H.Generator

  -- `random_range(low..high)`; `none` is its panic.
  unfoldable pub draw : ℕ → ℕ → World → Option (ℕ × World)
  draw low high w =
      let (n, rng) = H.random_range low high w.rng in
      if ltb low high then some (n, record w { rng = rng }) else none

  unfoldable pub flip : H.F64 → World → Bool × World
  flip chance w = let (hit, rng) = H.random_bool chance w.rng in (hit, record w { rng = rng })

  -- One of a list that is not empty; the first argument after it fills in.
  unfoldable pub choose_from {ℓ} : {A : Type ℓ} → List A → A → World → A × World
  choose_from choices first w =
      let (n, rng) = H.random_range 0 (length choices) w.rng in
      (get_or choices n first, record w { rng = rng })

  unfoldable pub tell : TestOutcome → Handle → World → World
  tell outcome hook w = record w { heap = H.on_mutate outcome hook w.heap }

  unfoldable pub tell_all : TestOutcome → List Handle → World → World
  tell_all outcome [] w = w
  tell_all outcome (hook ∷ hooks) w = tell_all outcome hooks (tell outcome hook w)

  abbrev pub Child : Type 0
  Child = TestableEntry (RawEntry (Shared (List H.Statement)))

  -- A run of a strategy on a child and the generation of its parent; `none` is a panic.
  abbrev pub Breed : Type 0
  Breed = Child → List Child → World → Option (Child × World × BreedResult)

  unfoldable pub fire_parent_hooks : TestOutcome → Child → World → World
  unfolding tell_all
  fire_parent_hooks outcome child w = tell_all outcome child.parent_stats w

  -- The trait's own `breed`, over a strategy's `breed_inner`
  unfoldable pub breed_by_default : Breed → Breed
  breed_by_default breed_inner child parent_gen w = breed_inner child parent_gen w >>= λ r.
      some (r.0, fire_parent_hooks (if is_mutated r.2 then mutated else noop) r.0 r.1, r.2)

  pub record MutationStrategy : Type 0 where
    pub breed_inner : Breed
    pub breed : Breed

  unfoldable pub by_default : Breed → MutationStrategy
  by_default breed_inner = record {
    breed_inner = breed_inner;
    breed = breed_by_default breed_inner;
  }

  -- `NOOP`
  unfoldable pub do_nothing : MutationStrategy
  unfolding by_default
  do_nothing = by_default (λ child parent_gen w. some (child, w, ok unchanged))

  -- `ast_mut`
  unfoldable pub ast_mut : Child → Option (List H.Statement)
  ast_mut child = get_mut child.entry.ast

  -- A write through `ast_mut`
  unfoldable pub with_ast : List H.Statement → Child → Child
  with_ast tree child = record child {
    entry = record (child.entry) { ast = record (child.entry.ast) { tree = tree } };
  }
