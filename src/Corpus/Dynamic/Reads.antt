-- ===== src/Corpus/Dynamic/Reads.antt =====
-- Reading: `get` returns what the abstract map holds, and leaves the map alone.
use ast_sqlite_test.Common.{
  ℕ, ◌+◌, ◌≤◌, ◌≡◌, refl, Bool, true, false, Option, none, some, ltb, subst, sym, ap, ◌∙◌, ◌==◌,
  length, is_some, arith, Bool-cases, Option-cases, inl, inr, ℕ_discrete, ==_refl,
}
use ast_sqlite_test.Common.Assoc.{lookup}
use ast_sqlite_test.Core.Entry.{EntryId}
use ast_sqlite_test.Corpus.Containers.{IndexMap, ScoreQueue}
use ast_sqlite_test.Corpus.Storage.{StorageBackend, IsReliable}
use ast_sqlite_test.Corpus.Dynamic.Invariant.{view, view_in, tree_in, IsValidBut, IsValid, nobody}
use ast_sqlite_test.Corpus.Dynamic.Evict.{Kept}
use ast_sqlite_test.Corpus.Dynamic.Moves.{held, Rests, move_to_cache-Rests}
use ast_sqlite_test.Corpus.Dynamic.{
  CacheLocation, in_flight, hot, disk, EntryData, DynamicCorpus, entry_of, get_from_disk, get_at,
  get,
}

module _ {A Score : Type 0} {below : Score → Score → Bool} (M : IndexMap A)
    (Q : ScoreQueue Score below) (D : StorageBackend A) (R : IsReliable D) where
  -- A step that leaves the abstract map alone.
  pub record Same (c c' : DynamicCorpus M Q D) : Type 0 where
    pub valid : IsValidBut M Q D R nobody c'
    pub views : (k : EntryId) → view M Q D R k c' ≡ view M Q D R k c
    pub flying_le : length (M.entries c'.flying) ≤ length (M.entries c.flying)
    pub hot_cap : c'.hot_cap ≡ c.hot_cap
    pub absent : (k : EntryId) → lookup k c.index ≡ none → lookup k c'.index ≡ none

  pub in_hand :
      (id : EntryId) (c : DynamicCorpus M Q D)
      → IsValidBut M Q D R nobody c
      → IsValidBut M Q D R (held M Q D R id) c
  in_hand id c v = record {
    room = v.room;
    positive = v.positive;
    tracked = v.tracked;
    hot_indexed = v.hot_indexed;
    flight_indexed = v.flight_indexed;
    placed = λ k place h o. v.placed k place h refl;
  }

  pub Same-refl : (c : DynamicCorpus M Q D) → IsValidBut M Q D R nobody c → Same c c
  Same-refl c v = record {
    valid = v;
    views = λ k. refl;
    flying_le = omega arith;
    hot_cap = refl;
    absent = λ k h. h;
  }

  pub Same-trans : (c c₁ c₂ : DynamicCorpus M Q D) → Same c c₁ → Same c₁ c₂ → Same c c₂
  Same-trans c c₁ c₂ p q = record {
    valid = q.valid;
    views = λ k. q.views k ∙ p.views k;
    flying_le = omega (arith, p.flying_le, q.flying_le);
    hot_cap = q.hot_cap ∙ p.hot_cap;
    absent = λ k h. q.absent k (p.absent k h);
  }

  pub Same-of_Kept : (c c' : DynamicCorpus M Q D) → Kept M Q D R nobody c c' → Same c c'
  Same-of_Kept c c' p = record {
    valid = p.valid;
    views = p.views;
    flying_le = rw p.flying (omega arith);
    hot_cap = p.hot_cap;
    absent = p.absent;
  }

  -- An entry at rest with the tree that it had.
  pub Same-of_Rests :
      (id : EntryId) (d : EntryData Score) (ast : A) (c c' : DynamicCorpus M Q D)
      → Rests M Q D R id d ast c c'
      → view M Q D R id c ≡ some (entry_of M Q D id d ast)
      → Same c c'
  Same-of_Rests id d ast c c' p old = record {
    valid = p.valid;
    views = λ k. elim (ℕ_discrete id k) [
      | yes e ↦
          subst (λ j. view M Q D R j c' ≡ view M Q D R j c) e
            (p.views id ∙ rw (==_refl id) (sym old))
      | no e ↦ let f : (id == k) ≡ false = ground arith in p.views k ∙ rw f refl
    ];
    flying_le = rw p.flying (omega arith);
    hot_cap = p.hot_cap;
    absent = p.absent;
  }

  -- Only the counters and the backend's own state change.
  pub reread :
      (c : DynamicCorpus M Q D) (backend : D.Backend) (misses requests : ℕ)
      → IsValidBut M Q D R nobody c
      → ((k : EntryId) → R.stored k backend ≡ R.stored k c.disk_cache)
      → Same c (record c { disk_cache = backend; cache_misses = misses; requests = requests })
  reread c backend misses requests v keeps = record {
    valid = record {
      room = v.room;
      positive = v.positive;
      tracked = v.tracked;
      hot_indexed = v.hot_indexed;
      flight_indexed = v.flight_indexed;
      placed = λ k place h o. placed_lem k place (v.placed k place h o);
    };
    views = λ k. views_lem k (lookup k c.index);
    flying_le = omega arith;
    hot_cap = refl;
    absent = λ k h. h;
  }
    where
      placed_lem :
          (k : EntryId) (place : CacheLocation)
          → is_some (tree_in M Q D R place k c.flying c.hot c.disk_cache) ≡ true
          → is_some (tree_in M Q D R place k c.flying c.hot backend) ≡ true
      placed_lem k (in_flight round) h = h
      placed_lem k hot h = h
      placed_lem k disk h = rw (keeps k) h

      views_lem :
          (k : EntryId) (o : Option (EntryData Score))
          → view_in M Q D R o k c.flying c.hot backend
            ≡ view_in M Q D R o k c.flying c.hot c.disk_cache
      views_lem k none = refl
      views_lem k (some d) = ground (arith, keeps k)

  module _ (c : DynamicCorpus M Q D) (v : IsValidBut M Q D R nobody c) (id : EntryId)
      (d : EntryData Score) (known : lookup id c.index ≡ some d) where
    get_from_disk_lem :
        d.cached ≡ disk
        → Same c (get_from_disk M Q D id d c).0
          × ((get_from_disk M Q D id d c).1 ≡ view M Q D R id c)
    unfolding get_from_disk
    get_from_disk_lem on_disk =
        let backend = (D.retrieve id c.disk_cache).0 in
        let kept = λ (m r : ℕ). reread c backend m r v (λ k. R.stored-retrieve id k c.disk_cache) in
        let read : (D.retrieve id c.disk_cache).1 ≡ R.stored id c.disk_cache =
          R.retrieve_stored id c.disk_cache in
        let there : is_some (R.stored id c.disk_cache) ≡ true =
          v.placed id disk (rw (known, on_disk) refl) refl in
        elim (Option-cases (R.stored id c.disk_cache)) [
          | inl gone ↦ absurd (ground arith)
          | inr (ast, found) ↦
              let seen : view M Q D R id c ≡ some (entry_of M Q D id d ast) =
                rw (known, view_in, on_disk, found) refl in
              rw (read, found, get_from_disk, seen)
                (
                  elim (Bool-cases (ltb (length c.hot) c.hot_cap)) [
                    | inr full ↦ rw full (kept (c.cache_misses + 1) c.requests)
                    | inl room ↦
                        let k₁ = kept c.cache_misses c.requests in
                        let c₁ : DynamicCorpus M Q D = record c { disk_cache = backend } in
                        rw room (
                          Same-trans c c₁ _ k₁ (
                            Same-of_Rests id d ast c₁ _
                              (move_to_cache-Rests M Q D R id d ast c₁ (in_hand id c₁ k₁.valid)
                                known (ground (arith, v.flight_indexed id disk, known, on_disk))
                                (ground arith))
                              (k₁.views id ∙ seen)))
                  ],
                  refl,
                )
        ]

    get_at_lem :
        (place : CacheLocation)
        → d.cached ≡ place
        → Same c (get_at M Q D place id d c).0 × ((get_at M Q D place id d c).1 ≡ view M Q D R id c)
    unfolding get_at
    get_at_lem (in_flight round) e = (Same-refl c v, rw (known, view_in, e) refl)
    get_at_lem hot e = (Same-refl c v, rw (known, view_in, e) refl)
    get_at_lem disk e = get_from_disk_lem e

  pub Same-IsValid :
      (c c' : DynamicCorpus M Q D) → IsValid M Q D R c → Same c c' → IsValid M Q D R c'
  Same-IsValid c c' v s = record {
    sound = s.valid;
    flying_bounded = omega (arith, s.flying_le, v.flying_bounded);
    cap_bounded = omega (arith, s.hot_cap, v.cap_bounded);
  }

  -- `get` returns the entry that the abstract map holds for the id, whether its tree is in
  -- flight, hot or on disk; it keeps the invariant, and no id reads differently afterwards.
  pub get-view :
      (id : EntryId) (c : DynamicCorpus M Q D)
      → IsValid M Q D R c
      → ((get M Q D id c).1 ≡ view M Q D R id c)
        × IsValid M Q D R (get M Q D id c).0
        × ((k : EntryId) → view M Q D R k (get M Q D id c).0 ≡ view M Q D R k c)
  unfolding get
  get-view id c v = elim (Option-cases (lookup id c.index)) [
    | inl gone ↦ rw (gone, get) (refl, v, λ k. refl)
    | inr (d, known) ↦
        let counted = reread c c.disk_cache c.cache_misses (c.requests + 1) v.sound (λ k. refl) in
        let c₁ : DynamicCorpus M Q D = record c { requests = c.requests + 1 } in
        let (same, read) = get_at_lem c₁ counted.valid id d known d.cached refl in
        rw (known, get)
          (
            read
                ∙ counted.views id
                ∙ ap (λ o. view_in M Q D R o id c.flying c.hot c.disk_cache) known,
            Same-IsValid c _ v (Same-trans c c₁ _ counted same),
            λ k. same.views k ∙ counted.views k,
          )
  ]
