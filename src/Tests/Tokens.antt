-- ===== src/Tests/Tokens.antt =====
-- Two workers and three edges: a token is taken and written.
use ast_sqlite_test.Common.{ℕ, ◌≡◌, refl, [], ◌∷◌, none, some}
use ast_sqlite_test.Cov.Tokens.{IpcToken, SharedMemHandle, send, recv, new, send_new, enqueue}
use ast_sqlite_test.Cov.Tokens.Rounds.{
  Reachable, start, takes, runs, IsSound, Reachable-IsSound, send_passes,
}

abbrev blank : ℕ → IpcToken
blank id = record { id = id; shmem = 0 ∷ 0 ∷ 0 ∷ [] }

abbrev one_left : SharedMemHandle
one_left = record { queue = blank 1 ∷ []; bound = 2; shmem_size = 3 }

first_taken : recv (new 2 3) ≡ (one_left, some (blank 0))
unfolding recv new send_new enqueue
first_taken = refl

after_run :
    Reachable 2 3
      (record { handle = one_left; out = record { id = 0; shmem = 1 ∷ 0 ∷ 7 ∷ [] } ∷ [] })
after_run =
    runs one_left [] [] (blank 0) (1 ∷ 0 ∷ 7 ∷ [])
      (takes (record { handle = new 2 3; out = [] }) one_left (blank 0) start first_taken) refl

Reachable-IsSound_example :
    IsSound 2 3 (record { handle = one_left; out = record { id = 0; shmem = 1 ∷ 0 ∷ 7 ∷ [] } ∷ [] })
Reachable-IsSound_example =
    Reachable-IsSound 2 3
      (record { handle = one_left; out = record { id = 0; shmem = 1 ∷ 0 ∷ 7 ∷ [] } ∷ [] }) after_run

send_passes_example : (send (record { id = 0; shmem = 1 ∷ 0 ∷ 7 ∷ [] }) one_left).1 ≡ none
send_passes_example =
    send_passes 2 3 one_left [] [] (record { id = 0; shmem = 1 ∷ 0 ∷ 7 ∷ [] }) after_run
