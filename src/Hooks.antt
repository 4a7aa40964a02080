-- ===== src/Hooks.antt =====
-- crates/lsf-hooks/src/lib.rs: the callbacks that the instrumented program makes. The statics are
-- a record; the guards of a module are the list from `start` to `stop`. Opening the shared memory,
-- a program's exit and its environment are the caller's.
pub mod Guards
use ast_sqlite_test.Common.{
  ℕ, zero, suc, ◌+◌, ◌-◌, ◌%◌, Bool, true, false, ◌&&◌, List, [], ◌∷◌, Option, none, some, ltb,
  ◌==◌, if◌then◌else◌, length, set,
}
use ast_sqlite_test.Core.Entry.{u32_mod}

pub record Statics : Type 0 where
  -- the shared map, once it is opened
  pub shmem_map : Option (List ℕ)
  pub edges : ℕ
  pub need_init : Bool

pub data AfterInit : Type 0 where
  go_on exit_with_count : AfterInit

-- The loop over the guards, with the counter.
unfoldable pub number_guards : List ℕ → ℕ → List ℕ × ℕ
number_guards [] edges = ([], edges)
number_guards (guard ∷ guards) edges =
    let edges' = (edges + 1) % u32_mod in
    let (rest, last) = number_guards guards edges' in (edges' ∷ rest, last)

-- `fuzzer_init` is whether FUZZER_INIT is set, `opened` the shared memory of FUZZER_SHMEM_PATH.
unfoldable pub pc_guard_init : Bool → List ℕ → List ℕ → Statics → List ℕ × Statics × AfterInit
pc_guard_init fuzzer_init opened [] s = ([], s, go_on)
pc_guard_init fuzzer_init opened (first ∷ rest) s =
    if first == 0
    then (let (guards, edges) = number_guards (first ∷ rest) s.edges in
        let s₁ : Statics = record s { edges = edges } in
        if fuzzer_init then (guards, s₁, exit_with_count) else (
          guards,
          if s.need_init then record s₁ { need_init = false; shmem_map = some opened } else s₁,
          go_on,
        ))
    else (first ∷ rest, s, go_on)

-- `none` is a write outside of the map.
unfoldable pub pc_guard : ℕ → Statics → Option Statics
pc_guard v s = if v == 0 then some s else elim s.shmem_map [
  | none ↦ some s
  | some bytes ↦
      if ltb (v - 1) (length bytes)
      then some (record s { shmem_map = some (set bytes (v - 1) 1) })
      else none
]
