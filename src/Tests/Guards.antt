-- ===== src/Tests/Guards.antt =====
-- Two modules of guards.
use ast_sqlite_test.Common.{
  ℕ, suc, ◌+◌, ◌<◌, ◌≡◌, ◌≢◌, refl, false, List, [], ◌∷◌, some, length, get_or, arith,
}
use ast_sqlite_test.Hooks.{Statics, AfterInit, go_on, pc_guard_init, pc_guard}
use ast_sqlite_test.Hooks.Guards.{pc_guard_init_numbers, pc_guard_marks}

abbrev after_first : Statics
after_first = record { shmem_map = some (0 ∷ 0 ∷ 0 ∷ 0 ∷ 0 ∷ []); edges = 2; need_init = false }

pc_guard_init_numbers_example :
    (numbered : List ℕ) × (s' : Statics) × (after : AfterInit) × (pc_guard_init false []
        (0 ∷ 0 ∷ 0 ∷ [])
        after_first
      ≡ (numbered, s', after))
    × (s'.edges ≡ 5)
    × (length numbered ≡ 3)
    × ((i : ℕ) → i < 3 → get_or numbered i 0 ≡ suc (2 + i))
    × (pc_guard_init false [] numbered s' ≡ (numbered, s', go_on))
pc_guard_init_numbers_example =
    pc_guard_init_numbers false [] (0 ∷ 0 ∷ 0 ∷ []) after_first (omega arith) refl (omega arith)

pc_guard_marks_example :
    (bytes' : List ℕ) × (pc_guard 2 after_first
      ≡ some (record after_first { shmem_map = some bytes' }))
    × (get_or bytes' 1 0 ≡ 1)
    × ((i : ℕ) → i ≢ 1 → get_or bytes' i 0 ≡ get_or (0 ∷ 0 ∷ 0 ∷ 0 ∷ 0 ∷ []) i 0)
    × (length bytes' ≡ 5)
pc_guard_marks_example =
    pc_guard_marks 2 (0 ∷ 0 ∷ 0 ∷ 0 ∷ 0 ∷ []) after_first refl (omega arith) (omega arith)
      (omega arith)
