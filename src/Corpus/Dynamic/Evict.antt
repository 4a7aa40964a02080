-- ===== src/Corpus/Dynamic/Evict.antt =====
-- `evict_cached_if` keeps the abstract map, and makes room when it says so.
use ast_sqlite_test.Common.{
  ◌<◌, ◌≡◌, ◌≢◌, refl, Bool, true, false, Option, none, some, ltb, subst, ◌==◌, if◌then◌else◌,
  length, is_some, arith, Bool-cases, Option-cases, inl, inr, ℕ_discrete, ==_refl,
}
use ast_sqlite_test.Common.Assoc.{
  lookup, remove, modify, lookup-remove, lookup-modify, length-remove, nonempty_key,
}
use ast_sqlite_test.Core.Entry.{EntryId, CorpusEntry}
use ast_sqlite_test.Corpus.Containers.{IndexMap, ScoreQueue}
use ast_sqlite_test.Corpus.Storage.{StorageBackend, IsReliable}
use ast_sqlite_test.Corpus.Dynamic.{
  CacheLocation, hot, disk, EntryData, DynamicCorpus, move_to_disk, evict_worst, evict_cached_if,
}
use ast_sqlite_test.Corpus.Dynamic.Invariant.{tree_at, view, spot, IsValidBut, flies}

module _ {A Score : Type 0} {below : Score → Score → Bool} (M : IndexMap A)
    (Q : ScoreQueue Score below) (D : StorageBackend A) (R : IsReliable D)
    (out : EntryId → Bool) where
  abbrev seen : EntryId → DynamicCorpus M Q D → Option (CorpusEntry A)
  seen = view M Q D R

  -- What stays over an operation on the cache, for entries that are not hot too.
  pub record Kept (c c' : DynamicCorpus M Q D) : Type 0 where
    pub valid : IsValidBut M Q D R out c'
    pub views : (k : EntryId) → view M Q D R k c' ≡ view M Q D R k c
    pub flying : c'.flying ≡ c.flying
    pub hot_cap : c'.hot_cap ≡ c.hot_cap
    pub absent : (k : EntryId) → lookup k c.index ≡ none → lookup k c'.index ≡ none
    pub settled :
        (k : EntryId) (d : EntryData Score)
        → lookup k c.index ≡ some d
        → d.cached ≢ hot
        → lookup k c'.index ≡ some d

  Kept-refl : (c : DynamicCorpus M Q D) → IsValidBut M Q D R out c → Kept c c
  Kept-refl c v = record {
    valid = v;
    views = λ k. refl;
    flying = refl;
    hot_cap = refl;
    absent = λ k h. h;
    settled = λ k d h n. h;
  }

  -- The queue alone changes, and still has every hot id.
  requeue :
      (c : DynamicCorpus M Q D) (queue : Q.Queue)
      → IsValidBut M Q D R out c
      → ((k : EntryId)
          → is_some (Q.score_of k c.hot_eviction) ≡ true
          → is_some (Q.score_of k queue) ≡ true)
      → Kept c (record c { hot_eviction = queue })
  requeue c queue v keeps = record {
    valid = record {
      room = v.room;
      positive = v.positive;
      tracked = λ k h. keeps k (v.tracked k h);
      hot_indexed = v.hot_indexed;
      flight_indexed = v.flight_indexed;
      placed = v.placed;
    };
    views = λ k. refl;
    flying = refl;
    hot_cap = refl;
    absent = λ k h. h;
    settled = λ k d h n. h;
  }

  -- A hot entry that is not in the queue any more is written back to disk.
  module _ (c : DynamicCorpus M Q D) (w : EntryId) (s : Score) (queue : Q.Queue) (ast : A)
      (v : IsValidBut M Q D R out c) (popped : Q.pop c.hot_eviction ≡ some ((w, s), queue))
      (found : lookup w c.hot ≡ some ast) where
    abbrev spilled : DynamicCorpus M Q D
    spilled = record c {
      hot_eviction = queue;
      hot = remove w c.hot;
      disk_cache = (D.write w ast c.disk_cache).0;
      index = modify w (λ d. record d { cached = disk }) c.index;
    }

    spilled-spot :
        (k : EntryId) → spot M Q D R k spilled ≡ (if w == k then some disk else spot M Q D R k c)
    spilled-spot k =
        let was = v.hot_indexed w (rw found refl) in
        ground (arith, was, lookup-modify w k (λ d. record d { cached = disk }) c.index)

    spill_view : (k : EntryId) → seen k spilled ≡ seen k c
    spill_view k = elim (ℕ_discrete w k) [
      | yes p ↦
          subst (λ j. seen j spilled ≡ seen j c) p
            (let was = v.hot_indexed w (rw found refl) in
              ground (
                arith,
                was,
                found,
                lookup-modify w w (λ d. record d { cached = disk }) c.index,
                R.stored-write w w ast c.disk_cache,
              ))
      | no p ↦ ground (
        arith,
        lookup-modify w k (λ d. record d { cached = disk }) c.index,
        lookup-remove w k c.hot,
        R.stored-write w k ast c.disk_cache,
      )
    ]

    spill_placed :
        (k : EntryId) (place : CacheLocation)
        → spot M Q D R k spilled ≡ some place
        → out k ≡ false
        → is_some (tree_at M Q D R place k spilled) ≡ true
    spill_placed k place h o = elim (ℕ_discrete w k) [
      | yes p ↦ ground (arith, spilled-spot k, R.stored-write w k ast c.disk_cache)
      | no p ↦ ground (
        arith,
        spilled-spot k,
        v.placed k place,
        lookup-remove w k c.hot,
        R.stored-write w k ast c.disk_cache,
      )
    ]

    spill_flight :
        (k : EntryId) (place : CacheLocation)
        → is_some (lookup k (M.entries c.flying)) ≡ true
        → spot M Q D R k spilled ≡ some place
        → flies place ≡ true
    spill_flight k place f h = elim (ℕ_discrete w k) [
      | yes p ↦
          let was : spot M Q D R k c ≡ some hot = rw p at (v.hot_indexed w (rw found refl)) in
          absurd (ground (arith, v.flight_indexed k hot f was))
      | no p ↦ ground (arith, spilled-spot k, v.flight_indexed k place f)
    ]

    spill : Kept c spilled
    spill = record {
      valid = record {
        room = omega (arith, length-remove w c.hot ast found, v.room);
        positive = v.positive;
        tracked = λ k h. ground (
          arith,
          lookup-remove w k c.hot,
          v.tracked k,
          (Q.pop_some c.hot_eviction queue w s popped).1 k,
        );
        hot_indexed =
            λ k h. ground (arith, lookup-remove w k c.hot, v.hot_indexed k, spilled-spot k);
        flight_indexed = λ k place f h. spill_flight k place f h;
        placed = spill_placed;
      };
      views = spill_view;
      flying = refl;
      hot_cap = refl;
      absent = λ k h. ground (arith, lookup-modify w k (λ d. record d { cached = disk }) c.index);
      settled = λ k d h n.
          ground
            (arith, lookup-modify w k (λ d. record d { cached = disk }) c.index, v.hot_indexed w);
    }

  -- The queue has given up its lowest id, and takes it back.
  push_back :
      (c : DynamicCorpus M Q D) (w : EntryId) (s : Score) (queue : Q.Queue)
      → IsValidBut M Q D R out c
      → Q.pop c.hot_eviction ≡ some ((w, s), queue)
      → Kept c (record c { hot_eviction = Q.push_increase w s queue })
  push_back c w s queue v popped =
      let (held, left, lowest) = Q.pop_some c.hot_eviction queue w s popped in
      let gone : Q.score_of w queue ≡ none = rw (left w, ==_refl w) refl in
      requeue c (Q.push_increase w s queue) v
        (λ k h. ground (arith, Q.score_of-push_increase w k s queue, gone, left k))

  module _ (cond : Score → Bool) (c : DynamicCorpus M Q D) (v : IsValidBut M Q D R out c) where
    abbrev evicted : DynamicCorpus M Q D × Bool
    evicted = evict_cached_if M Q D cond c

    abbrev MakesRoom : DynamicCorpus M Q D × Bool → Type 0
    MakesRoom r = r.1 ≡ true → length r.0.hot < r.0.hot_cap

    popped_worst :
        (w : EntryId) (s : Score) (queue : Q.Queue)
        → Q.pop c.hot_eviction ≡ some ((w, s), queue)
        → Kept c (evict_worst M Q D cond w s (record c { hot_eviction = queue })).0
          × MakesRoom (evict_worst M Q D cond w s (record c { hot_eviction = queue }))
    unfolding evict_worst move_to_disk
    popped_worst w s queue popped =
        let back = push_back c w s queue v popped in
        elim (Bool-cases (cond s)) [
          | inr f ↦ rw f (back, λ h. cc)
          | inl t ↦ elim (Option-cases (lookup w c.hot)) [
            | inl none_hot ↦ rw (t, evict_worst, none_hot) (back, λ h. cc)
            | inr (ast, found) ↦
                rw (t, evict_worst, found, R.write_ok w ast c.disk_cache)
                  (
                    spill c w s queue ast v popped found,
                    λ h. omega (arith, length-remove w c.hot ast found, v.room),
                  )
          ]
        ]

    -- A full cache holds an id, so its queue is not empty.
    never_empty : ltb (length c.hot) c.hot_cap ≡ false → Q.pop c.hot_eviction ≢ none
    never_empty full empty =
        let (k, here) = nonempty_key c.hot (ground (arith, v.positive)) in
        ground (arith, v.tracked k here, Q.pop_none c.hot_eviction k empty)

    pub evict_cached_if-Kept : Kept c evicted.0 × MakesRoom evicted
    unfolding evict_cached_if
    evict_cached_if-Kept = elim (Bool-cases (ltb (length c.hot) c.hot_cap)) [
      | inl t ↦ rw t (Kept-refl c v, λ h. ground arith)
      | inr f ↦ elim (Option-cases (Q.pop c.hot_eviction)) [
        | inl empty ↦ absurd (never_empty f empty)
        | inr (((w, s), queue), popped) ↦
            rw (f, evict_cached_if, popped) (popped_worst w s queue popped)
      ]
    ]
