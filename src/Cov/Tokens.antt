-- ===== src/Cov/Tokens.antt =====
-- crates/lsf-cov/src/ipc.rs: the tokens, each with a shared memory of its own, that go round
-- between the engine and its workers in a bounded channel. A token's memory is its list of bytes.
pub mod Rounds
use ast_sqlite_test.Common.{
  ℕ, zero, suc, ◌+◌, ◌*◌, ◌≤◌, ◌<◌, ◌≡◌, refl, Bool, true, false, List, [], ◌∷◌, ◌++◌, Option, none,
  some, ltb, if◌then◌else◌, length, replicate, arith, length-append, length-replicate, Bool-cases,
  inl, inr, all, ◌&&◌, ◌==◌,
}

abbrev pub tokens_per_worker : ℕ
tokens_per_worker = 1

pub record IpcToken : Type 0 where
  pub id : ℕ
  pub shmem : List ℕ

-- The channel, first token first; a `send` to a full channel blocks, and here gives the token
-- back.
pub record SharedMemHandle : Type 0 where
  pub queue : List IpcToken
  pub bound : ℕ
  pub shmem_size : ℕ

unfoldable pub enqueue : IpcToken → SharedMemHandle → SharedMemHandle × Option IpcToken
enqueue token h =
    if ltb (length h.queue) h.bound
    then (record h { queue = h.queue ++ token ∷ [] }, none)
    else (h, some token)

-- `write_bytes` over the token's memory, which has `shmem_size` bytes
unfoldable pub send : IpcToken → SharedMemHandle → SharedMemHandle × Option IpcToken
unfolding enqueue
send token h = enqueue (record token { shmem = replicate h.shmem_size 0 }) h

unfoldable pub recv : SharedMemHandle → SharedMemHandle × Option IpcToken
recv h = elim h.queue [ [] ↦ (h, none) | token ∷ rest ↦ (record h { queue = rest }, some token) ]

unfoldable pub send_new : ℕ → ℕ → SharedMemHandle → SharedMemHandle
send_new zero i h = h
send_new (suc n) i h =
    send_new n (suc i) (enqueue (record { id = i; shmem = replicate h.shmem_size 0 }) h).0

unfoldable pub new : ℕ → ℕ → SharedMemHandle
new n_workers max_edges =
    send_new (n_workers * tokens_per_worker) 0
      (record { queue = []; bound = n_workers * tokens_per_worker; shmem_size = max_edges })
