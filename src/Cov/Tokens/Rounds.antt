-- ===== src/Cov/Tokens/Rounds.antt =====
-- The tokens on their rounds: taken by a worker, written by its runs, and sent back.
use ast_sqlite_test.Common.{
  ℕ, zero, suc, ◌+◌, ◌*◌, ◌<◌, ◌≡◌, refl, Bool, true, List, [], ◌∷◌, ◌++◌, none, some, ltb, length,
  replicate, arith, length-append, length-replicate, all, ◌&&◌, ◌==◌, sym, ap, ◌∙◌, subst,
}
use ast_sqlite_test.Cov.Tokens.{IpcToken, SharedMemHandle, enqueue, send, recv, send_new, new}

pub record System : Type 0 where
  pub handle : SharedMemHandle
  -- with the workers
  pub out : List IpcToken

pub data Reachable (n_workers max_edges : ℕ) : System → Type 0 where
  start : Reachable n_workers max_edges (record { handle = new n_workers max_edges; out = [] })
  takes :
      (s : System) (h : SharedMemHandle) (t : IpcToken)
      → Reachable n_workers max_edges s
      → recv s.handle ≡ (h, some t)
      → Reachable n_workers max_edges (record { handle = h; out = t ∷ s.out })
  runs :
      (h : SharedMemHandle) (pre post : List IpcToken) (t : IpcToken) (bytes : List ℕ)
      → Reachable n_workers max_edges (record { handle = h; out = pre ++ t ∷ post })
      → length bytes ≡ max_edges
      → Reachable n_workers max_edges
          (record { handle = h; out = pre ++ record t { shmem = bytes } ∷ post })
  returns :
      (h : SharedMemHandle) (pre post : List IpcToken) (t : IpcToken)
      → Reachable n_workers max_edges (record { handle = h; out = pre ++ t ∷ post })
      → Reachable n_workers max_edges (record { handle = (send t h).0; out = pre ++ post })

abbrev pub clean : List ℕ → Bool
clean bytes = all (λ b. b == 0) bytes

abbrev pub ready : ℕ → IpcToken → Bool
ready size t = clean t.shmem && length t.shmem == size

pub record IsSound (n_workers max_edges : ℕ) (s : System) : Type 0 where
  pub conserved : length s.handle.queue + length s.out ≡ n_workers
  pub bound_kept : s.handle.bound ≡ n_workers
  pub size_kept : s.handle.shmem_size ≡ max_edges
  pub queue_ready : all (ready max_edges) s.handle.queue ≡ true

clean-replicate : (n : ℕ) → clean (replicate n 0) ≡ true
clean-replicate zero = refl
clean-replicate (suc n) = clean-replicate n

ready_new : (n i : ℕ) → ready n (record { id = i; shmem = replicate n 0 }) ≡ true
ready_new n i = ground (arith, clean-replicate n, length-replicate {A = ℕ} n 0)

all-append :
    {A : Type 0} (p : A → Bool) (xs ys : List A)
    → all p xs ≡ true
    → all p ys ≡ true
    → all p (xs ++ ys) ≡ true
all-append p [] ys a b = b
all-append p (x ∷ xs) ys a b = ground (arith, all-append p xs ys)

enqueue_lem :
    (t : IpcToken) (h : SharedMemHandle)
    → length h.queue < h.bound
    → (enqueue t h).0 ≡ record h { queue = h.queue ++ t ∷ [] }
unfolding enqueue
enqueue_lem t h room = let f : ltb (length h.queue) h.bound ≡ true = ground arith in rw f refl

recv_lem :
    (h h' : SharedMemHandle) (t : IpcToken)
    → recv h ≡ (h', some t)
    → (h.queue ≡ t ∷ h'.queue) × (h'.bound ≡ h.bound) × (h'.shmem_size ≡ h.shmem_size)
unfolding recv
recv_lem h h' t e = queue_lem h.queue refl
  where
    queue_lem :
        (q : List IpcToken)
        → h.queue ≡ q
        → (h.queue ≡ t ∷ h'.queue) × (h'.bound ≡ h.bound) × (h'.shmem_size ≡ h.shmem_size)
    queue_lem [] f = absurd (ground (arith, rw f at e))
    queue_lem (u ∷ q) f =
        let e' = rw f at e in (ground (arith, e'), ground (arith, e'), ground (arith, e'))

record Filled (n shmem : ℕ) (h' : SharedMemHandle) : Type 0 where
  pub full : length h'.queue ≡ n
  pub bound : h'.bound ≡ n
  pub size : h'.shmem_size ≡ shmem
  pub queue_ready : all (ready shmem) h'.queue ≡ true

-- The first `k` of the `n` tokens are queued.
send_new_lem :
    (k n i : ℕ) (h : SharedMemHandle)
    → length h.queue + k ≡ n
    → h.bound ≡ n
    → all (ready h.shmem_size) h.queue ≡ true
    → Filled n h.shmem_size (send_new k i h)
unfolding send_new
send_new_lem zero n i h q b r = record {
  full = omega (arith, q);
  bound = b;
  size = refl;
  queue_ready = r;
}
send_new_lem (suc k) n i h q b r =
    let t : IpcToken = record { id = i; shmem = replicate h.shmem_size 0 } in
    let next : Filled n h.shmem_size (send_new k (suc i) (record h { queue = h.queue ++ t ∷ [] })) =
      send_new_lem k n (suc i) (record h { queue = h.queue ++ t ∷ [] })
        (omega (arith, q, length-append h.queue (t ∷ []))) b
        (all-append (ready h.shmem_size) h.queue (t ∷ []) r
          (ground (arith, ready_new h.shmem_size i))) in
    subst (λ h'. Filled n h.shmem_size (send_new k (suc i) h'))
      (sym (enqueue_lem t h (omega (arith, q, b)))) next

pub send_lem :
    (n size : ℕ) (t : IpcToken) (h : SharedMemHandle)
    → length h.queue < n
    → h.bound ≡ n
    → h.shmem_size ≡ size
    → all (ready size) h.queue ≡ true
    → ((send t h).1 ≡ none)
      × (length (send t h).0.queue ≡ length h.queue + 1)
      × ((send t h).0.bound ≡ n)
      × ((send t h).0.shmem_size ≡ size)
      × (all (ready size) (send t h).0.queue ≡ true)
unfolding send enqueue
send_lem n size t h room b s r =
    let f : ltb (length h.queue) h.bound ≡ true = ground arith in
    let t' : IpcToken = record t { shmem = replicate h.shmem_size 0 } in
    rw f (
      refl,
      length-append h.queue (t' ∷ []),
      b,
      s,
      all-append (ready size) h.queue (t' ∷ []) r (rw s (ground (arith, ready_new size t.id))),
    )

-- Whatever the workers do, a token is in the channel or with a worker, there are as many as
-- workers, and every token in the channel is ready: its memory has one byte for each edge, all 0.
pub Reachable-IsSound :
    (n_workers max_edges : ℕ) (s : System)
    → Reachable n_workers max_edges s
    → IsSound n_workers max_edges s
unfolding new recv
Reachable-IsSound n size s start =
    let f =
      send_new_lem (n * 1) (n * 1) 0 (record { queue = []; bound = n * 1; shmem_size = size })
        (omega arith) refl refl in
    record {
      conserved = omega (arith, f.full);
      bound_kept = omega (arith, f.bound);
      size_kept = f.size;
      queue_ready = f.queue_ready;
    }
Reachable-IsSound n size _ (takes s h t past e) =
    let v = Reachable-IsSound n size s past in
    let (q, b, z) = recv_lem s.handle h t e in
    record {
      conserved = omega (arith, v.conserved, ap length q);
      bound_kept = b ∙ v.bound_kept;
      size_kept = z ∙ v.size_kept;
      queue_ready = ground (arith, v.queue_ready, rw q at v.queue_ready);
    }
Reachable-IsSound n size _ (runs h pre post t bytes past e) =
    let v = Reachable-IsSound n size _ past in
    record {
      conserved = omega (
        arith,
        v.conserved,
        length-append pre (t ∷ post),
        length-append pre (record t { shmem = bytes } ∷ post),
      );
      bound_kept = v.bound_kept;
      size_kept = v.size_kept;
      queue_ready = v.queue_ready;
    }
Reachable-IsSound n size _ (returns h pre post t past) =
    let v = Reachable-IsSound n size _ past in
    let (sent, q, b, z, r) =
      send_lem n size t h (omega (arith, v.conserved, length-append pre (t ∷ post))) v.bound_kept
        v.size_kept v.queue_ready in
    record {
      conserved =
          omega (arith, q, v.conserved, length-append pre (t ∷ post), length-append pre post);
      bound_kept = b;
      size_kept = z;
      queue_ready = r;
    }

-- In every state that the engine and its workers can reach, a worker that gives a token back that it
-- holds is not held up by a full channel.
pub send_passes :
    (n_workers max_edges : ℕ) (h : SharedMemHandle) (pre post : List IpcToken) (t : IpcToken)
    → Reachable n_workers max_edges (record { handle = h; out = pre ++ t ∷ post })
    → (send t h).1 ≡ none
send_passes n size h pre post t past =
    let v = Reachable-IsSound n size _ past in
    (send_lem n size t h (omega (arith, v.conserved, length-append pre (t ∷ post))) v.bound_kept
      v.size_kept v.queue_ready).0
