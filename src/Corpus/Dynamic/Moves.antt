-- ===== src/Corpus/Dynamic/Moves.antt =====
-- An entry whose tree is in hand comes to rest in the hot cache or on disk, with the same tree.
use ast_sqlite_test.Common.{
  ◌<◌, ◌≡◌, ◌≢◌, refl, Bool, true, false, Option, none, some, leb, subst, ap, ◌∙◌, ◌==◌,
  if◌then◌else◌, length, option_map, is_some, arith, Bool-cases, inl, inr, ℕ_discrete,
}
use ast_sqlite_test.Common.Assoc.{
  lookup, insert, modify, lookup-insert, lookup-modify, length-insert,
}
use ast_sqlite_test.Core.Entry.{EntryId}
use ast_sqlite_test.Corpus.Containers.{IndexMap, ScoreQueue}
use ast_sqlite_test.Corpus.Storage.{StorageBackend, IsReliable}
use ast_sqlite_test.Corpus.Dynamic.{
  CacheLocation, hot, disk, EntryData, DynamicCorpus, place_hot, move_to_cache, move_to_disk,
  evict_cached_if, land, entry_of,
}
use ast_sqlite_test.Corpus.Dynamic.Invariant.{tree_at, view, spot, IsValidBut, nobody, flies}
use ast_sqlite_test.Corpus.Dynamic.Evict.{Kept, evict_cached_if-Kept}

module _ {A Score : Type 0} {below : Score → Score → Bool} (M : IndexMap A)
    (Q : ScoreQueue Score below) (D : StorageBackend A) (R : IsReliable D) (id : EntryId) where
  abbrev pub held : EntryId → Bool
  held k = id == k

  pub record Rests (d : EntryData Score) (ast : A) (c c' : DynamicCorpus M Q D) : Type 0 where
    pub valid : IsValidBut M Q D R nobody c'
    pub views :
        (k : EntryId)
        → view M Q D R k c' ≡ (if id == k then some (entry_of M Q D id d ast) else view M Q D R k c)
    pub flying : c'.flying ≡ c.flying
    pub hot_cap : c'.hot_cap ≡ c.hot_cap
    pub absent : (k : EntryId) → lookup k c.index ≡ none → lookup k c'.index ≡ none

  module _ (d : EntryData Score) (ast : A) (c : DynamicCorpus M Q D) (v : IsValidBut M Q D R held c)
      (known : lookup id c.index ≡ some d) (landed : lookup id (M.entries c.flying) ≡ none) where
    abbrev cached_in : DynamicCorpus M Q D
    cached_in = record c {
      hot = insert id ast c.hot;
      hot_eviction = Q.push id d.score c.hot_eviction;
      index = modify id (λ e. record e { cached = hot }) c.index;
    }

    abbrev moved : CacheLocation → EntryId → Option (EntryData Score)
    moved place k = lookup k (modify id (λ e. record e { cached = place }) c.index)

    moved_lem :
        (place : CacheLocation) (k : EntryId)
        → moved place k ≡ (if id == k then some (record d { cached = place }) else lookup k c.index)
    moved_lem place k =
        rw (lookup-modify id k (λ e. record e { cached = place }) c.index, known) refl

    cached_view :
        (k : EntryId)
        → view M Q D R k cached_in
          ≡ (if id == k then some (entry_of M Q D id d ast) else view M Q D R k c)
    cached_view k = elim (ℕ_discrete id k) [
      | yes p ↦
          subst
            (λ j.
              view M Q D R j cached_in
              ≡ (if id == j then some (entry_of M Q D id d ast) else view M Q D R j c))
            p (ground (arith, moved_lem hot id, lookup-insert id id ast c.hot))
      | no p ↦ ground (arith, moved_lem hot k, lookup-insert id k ast c.hot)
    ]

    cached_placed :
        (k : EntryId) (place : CacheLocation)
        → spot M Q D R k cached_in ≡ some place
        → is_some (tree_at M Q D R place k cached_in) ≡ true
    cached_placed k place h = elim (ℕ_discrete id k) [
      | yes p ↦ ground (arith, moved_lem hot k, lookup-insert id k ast c.hot)
      | no p ↦ ground (arith, moved_lem hot k, v.placed k place, lookup-insert id k ast c.hot)
    ]

    moved_flight :
        (to : CacheLocation) (k : EntryId) (place : CacheLocation)
        → is_some (lookup k (M.entries c.flying)) ≡ true
        → option_map (λ e. e.cached) (moved to k) ≡ some place
        → flies place ≡ true
    moved_flight to k place f h = elim (ℕ_discrete id k) [
      | yes p ↦
          absurd
            (let e : lookup k (M.entries c.flying) ≡ none = rw p at landed in ground (arith, e))
      | no p ↦ ground (arith, moved_lem to k, v.flight_indexed k place f)
    ]

    cache_Rests : length c.hot < c.hot_cap → Rests d ast c cached_in
    cache_Rests room = record {
      valid = record {
        room = omega (arith, length-insert id ast c.hot, room);
        positive = v.positive;
        tracked = λ k h. ground (
          arith,
          lookup-insert id k ast c.hot,
          v.tracked k,
          Q.score_of-push id k d.score c.hot_eviction,
        );
        hot_indexed =
            λ k h. ground (arith, lookup-insert id k ast c.hot, v.hot_indexed k, moved_lem hot k);
        flight_indexed = moved_flight hot;
        placed = λ k place h o. cached_placed k place h;
      };
      views = cached_view;
      flying = refl;
      hot_cap = refl;
      absent = λ k h. ground (arith, moved_lem hot k);
    }

    pub move_to_cache-Rests :
        length c.hot < c.hot_cap → Rests d ast c (move_to_cache M Q D id ast c)
    unfolding move_to_cache place_hot
    move_to_cache-Rests room =
        let f : leb c.hot_cap (length c.hot) ≡ false = ground (arith, room) in
        rw (f, move_to_cache) (rw (known, place_hot) (cache_Rests room))

    -- To disk, for an entry that is not hot.
    module _ (cold : d.cached ≢ hot) where
      abbrev stored_in : DynamicCorpus M Q D
      stored_in = record c {
        disk_cache = (D.write id ast c.disk_cache).0;
        index = modify id (λ e. record e { cached = disk }) c.index;
      }

      not_hot : lookup id c.hot ≡ none
      not_hot = ground (arith, v.hot_indexed id)

      stored_view :
          (k : EntryId)
          → view M Q D R k stored_in
            ≡ (if id == k then some (entry_of M Q D id d ast) else view M Q D R k c)
      stored_view k = elim (ℕ_discrete id k) [
        | yes p ↦
            subst
              (λ j.
                view M Q D R j stored_in
                ≡ (if id == j then some (entry_of M Q D id d ast) else view M Q D R j c))
              p (ground (arith, moved_lem disk id, R.stored-write id id ast c.disk_cache))
        | no p ↦ ground (arith, moved_lem disk k, R.stored-write id k ast c.disk_cache)
      ]

      stored_placed :
          (k : EntryId) (place : CacheLocation)
          → spot M Q D R k stored_in ≡ some place
          → is_some (tree_at M Q D R place k stored_in) ≡ true
      stored_placed k place h = elim (ℕ_discrete id k) [
        | yes p ↦ ground (arith, moved_lem disk k, R.stored-write id k ast c.disk_cache)
        | no p ↦
            ground (arith, moved_lem disk k, v.placed k place, R.stored-write id k ast c.disk_cache)
      ]

      stored_hot_indexed :
          (k : EntryId) → is_some (lookup k c.hot) ≡ true → spot M Q D R k stored_in ≡ some hot
      stored_hot_indexed k h = elim (ℕ_discrete id k) [
        | yes p ↦ absurd (
            let e : lookup k c.hot ≡ none = subst (λ j. lookup j c.hot ≡ none) p not_hot in
            ground (arith, e))
        | no p ↦ ground (arith, v.hot_indexed k, moved_lem disk k)
      ]

      pub move_to_disk-Rests : Rests d ast c (move_to_disk M Q D id ast c).0
      unfolding move_to_disk
      move_to_disk-Rests =
          rw (R.write_ok id ast c.disk_cache, move_to_disk)
            (record {
              valid = record {
                room = v.room;
                positive = v.positive;
                tracked = v.tracked;
                hot_indexed = stored_hot_indexed;
                flight_indexed = moved_flight disk;
                placed = λ k place h o. stored_placed k place h;
              };
              views = stored_view;
              flying = refl;
              hot_cap = refl;
              absent = λ k h. ground (arith, moved_lem disk k);
            })

  after_Kept :
      (d : EntryData Score) (ast : A) (c c₁ c' : DynamicCorpus M Q D)
      → Kept M Q D R held c c₁
      → Rests d ast c₁ c'
      → Rests d ast c c'
  after_Kept d ast c c₁ c' kept r = record {
    valid = r.valid;
    views = λ k.
        r.views k
        ∙ ap (λ rest. if id == k then some (entry_of M Q D id d ast) else rest) (kept.views k);
    flying = r.flying ∙ kept.flying;
    hot_cap = r.hot_cap ∙ kept.hot_cap;
    absent = λ k h. r.absent k (kept.absent k h);
  }

  pub land-Rests :
      (d : EntryData Score) (ast : A) (score : Score) (c : DynamicCorpus M Q D)
      → IsValidBut M Q D R held c
      → lookup id c.index ≡ some d
      → d.cached ≢ hot
      → lookup id (M.entries c.flying) ≡ none
      → Rests d ast c (land M Q D id ast score c)
  unfolding land
  land-Rests d ast score c v known cold landed =
      let (kept, room) = evict_cached_if-Kept M Q D R held (λ cached. below cached score) c v in
      let c₁ = evict_cached_if M Q D (λ cached. below cached score) c in
      let known₁ = kept.settled id d known cold in
      let landed₁ : lookup id (M.entries c₁.0.flying) ≡ none = rw kept.flying landed in
      elim (Bool-cases c₁.1) [
        | inl t ↦ rw t (
            after_Kept d ast c c₁.0 _ kept
              (move_to_cache-Rests d ast c₁.0 kept.valid known₁ landed₁ (room t)))
        | inr f ↦ rw f (
            after_Kept d ast c c₁.0 _ kept
              (move_to_disk-Rests d ast c₁.0 kept.valid known₁ landed₁ cold))
      ]
