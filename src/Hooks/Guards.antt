-- ===== src/Hooks/Guards.antt =====
-- Numbering the guards of the modules of a program, and tracing them.
use ast_sqlite_test.Common.{
  ℕ, zero, suc, ◌+◌, ◌-◌, ◌%◌, ◌<◌, ◌≤◌, ◌≡◌, ◌≢◌, refl, Bool, true, false, List, [], ◌∷◌, some,
  ltb, ◌==◌, length, set, get_or, arith, Bool-cases, inl, inr, get_or-set_self, get_or-set_ne, ap,
  sym, length-set,
}
use ast_sqlite_test.Core.Entry.{u32_mod}
use ast_sqlite_test.Hooks.{
  Statics, AfterInit, go_on, exit_with_count, number_guards, pc_guard_init, pc_guard,
}

number_guards_lem :
    (guards : List ℕ) (edges : ℕ)
    → edges + length guards < u32_mod
    → (length (number_guards guards edges).0 ≡ length guards)
      × ((number_guards guards edges).1 ≡ edges + length guards)
unfolding number_guards
number_guards_lem [] edges h = (refl, omega arith)
number_guards_lem (g ∷ guards) edges h =
    let e : (edges + 1) % u32_mod ≡ edges + 1 = omega arith in
    let (size, last) = number_guards_lem guards (edges + 1) (omega arith) in
    rw e (ap suc size, omega (arith, last))

get_or-number_guards :
    (guards : List ℕ) (edges i : ℕ)
    → edges + length guards < u32_mod
    → i < length guards
    → get_or (number_guards guards edges).0 i 0 ≡ suc (edges + i)
unfolding number_guards
get_or-number_guards [] edges i h l = elim l [ ]
get_or-number_guards (g ∷ guards) edges zero h l = omega arith
get_or-number_guards (g ∷ guards) edges (suc i) h l =
    let e : (edges + 1) % u32_mod ≡ edges + 1 = omega arith in
    rw e (omega (arith, get_or-number_guards guards (edges + 1) i (omega arith) (omega arith)))

numbered_again :
    (fuzzer_init : Bool) (opened guards : List ℕ) (s : Statics)
    → 0 < get_or guards 0 0
    → pc_guard_init fuzzer_init opened guards s ≡ (guards, s, go_on)
unfolding pc_guard_init
numbered_again fuzzer_init opened [] s h = refl
numbered_again fuzzer_init opened (g ∷ guards) s h =
    let f : (g == 0) ≡ false = ground arith in rw f refl

-- A module with guards that are not numbered gets the next numbers in order, as long as the
-- counter does not wrap, and the counter moves on by as many; a second call for the module
-- changes nothing.
pub pc_guard_init_numbers :
    (fuzzer_init : Bool) (opened guards : List ℕ) (s : Statics)
    → 0 < length guards
    → get_or guards 0 1 ≡ 0
    → s.edges + length guards < u32_mod
    → (numbered : List ℕ) × (s' : Statics) × (after : AfterInit) × (pc_guard_init fuzzer_init opened
          guards s
        ≡ (numbered, s', after))
      × (s'.edges ≡ s.edges + length guards)
      × (length numbered ≡ length guards)
      × ((i : ℕ) → i < length guards → get_or numbered i 0 ≡ suc (s.edges + i))
      × (pc_guard_init fuzzer_init opened numbered s' ≡ (numbered, s', go_on))
unfolding pc_guard_init
pc_guard_init_numbers fuzzer_init opened [] s some_guard new h = absurd (omega arith)
pc_guard_init_numbers fuzzer_init opened (g ∷ guards) s some_guard new h =
    let (size, last) = number_guards_lem (g ∷ guards) s.edges h in
    let nth : (i : ℕ)
        → i < suc (length guards)
        → get_or (number_guards (g ∷ guards) s.edges).0 i 0 ≡ suc (s.edges + i) =
      λ i l. get_or-number_guards (g ∷ guards) s.edges i h l in
    let first : 0 < get_or (number_guards (g ∷ guards) s.edges).0 0 0 =
      omega (arith, nth 0 (omega arith)) in
    let numbered = number_guards (g ∷ guards) s.edges in
    let s₁ : Statics = record s { edges = numbered.1 } in
    let again = λ (s' : Statics).
      numbered_again fuzzer_init opened (number_guards (g ∷ guards) s.edges).0 s' first in
    elim (Bool-cases fuzzer_init) [
      | inl e ↦ (numbered.0, s₁, exit_with_count, rw (new, e) refl, last, size, nth, again s₁)
      | inr e ↦ elim (Bool-cases s.need_init) [
        | inl n ↦ (
          numbered.0,
          record s₁ { need_init = false; shmem_map = some opened },
          go_on,
          rw (new, e, n) refl,
          last,
          size,
          nth,
          again (record s₁ { need_init = false; shmem_map = some opened }),
        )
        | inr n ↦ (numbered.0, s₁, go_on, rw (new, e, n) refl, last, size, nth, again s₁)
      ]
    ]

-- A guard that has a number, in a program whose map is open and has a byte for every number
-- given out, is traced inside the map: its own byte is set to 1 and no other byte changes.
pub pc_guard_marks :
    (v : ℕ) (bytes : List ℕ) (s : Statics)
    → s.shmem_map ≡ some bytes
    → s.edges ≤ length bytes
    → 0 < v
    → v ≤ s.edges
    → (bytes' : List ℕ) × (pc_guard v s ≡ some (record s { shmem_map = some bytes' }))
      × (get_or bytes' (v - 1) 0 ≡ 1)
      × ((i : ℕ) → i ≢ v - 1 → get_or bytes' i 0 ≡ get_or bytes i 0)
      × (length bytes' ≡ length bytes)
unfolding pc_guard
pc_guard_marks v bytes s mapped wide low high =
    let f : (v == 0) ≡ false = ground arith in
    let inside : ltb (v - 1) (length bytes) ≡ true = ground arith in
    (
      set bytes (v - 1) 1,
      rw (f, mapped, inside) refl,
      get_or-set_self bytes (v - 1) 1 0 (omega arith),
      λ i ne. get_or-set_ne bytes (v - 1) i 1 0 (λ e. ne (sym e)),
      length-set bytes (v - 1) 1,
    )
