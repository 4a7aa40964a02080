-- ===== src/Corpus/Dynamic/Removal.antt =====
-- Removing, clearing and resizing, and the corpus at the start.
use ast_sqlite_test.Common.{
  ℕ, ◌*◌, ◌/◌, ◌≤◌, ◌≡◌, refl, Bool, true, false, none, some, ltb, ◌==◌, if◌then◌else◌, arith,
  Bool-cases, Option-cases, inl, inr, ℕ_discrete, min, ◌&&◌,
}
use ast_sqlite_test.Common.Assoc.{lookup, remove, lookup-remove, length-remove-le}
use ast_sqlite_test.Core.Entry.{EntryId}
use ast_sqlite_test.Corpus.Containers.{IndexMap, ScoreQueue}
use ast_sqlite_test.Corpus.Storage.{StorageBackend, IsReliable}
use ast_sqlite_test.Corpus.Dynamic.Invariant.{view, IsValidBut, IsValid, nobody}
use ast_sqlite_test.Corpus.Dynamic.{
  CacheLocation, in_flight, hot, disk, EntryData, DynamicCorpus, remove_hot, remove_entry, clear,
  resize, new, cache_cap, cache_adjustment_tick,
}

abbrev is_hot : CacheLocation → Bool
is_hot hot = true
is_hot (in_flight round) = false
is_hot disk = false

module _ {A Score : Type 0} {below : Score → Score → Bool} (M : IndexMap A)
    (Q : ScoreQueue Score below) (D : StorageBackend A) (R : IsReliable D) where
  module _ (id : EntryId) (c : DynamicCorpus M Q D) (v : IsValidBut M Q D R nobody c)
      (d : EntryData Score) (known : lookup id c.index ≡ some d) where
    abbrev dropped : DynamicCorpus M Q D
    dropped = record c {
      index = remove id c.index;
      hot = if is_hot d.cached then remove id c.hot else c.hot;
    }

    dropped_hot : (k : EntryId) → lookup k dropped.hot ≡ (if id == k then none else lookup k c.hot)
    dropped_hot k = elim (ℕ_discrete id k) [
      | yes p ↦ elim (Bool-cases (is_hot d.cached)) [
        | inl t ↦ rw t (lookup-remove id k c.hot)
        | inr f ↦ rw f (
            let at_k : lookup k c.index ≡ some d = rw p at known in
            ground (arith, v.hot_indexed k, at_k, f))
      ]
      | no p ↦ elim (Bool-cases (is_hot d.cached)) [
        | inl t ↦ rw t (lookup-remove id k c.hot)
        | inr f ↦ rw f (ground arith)
      ]
    ]

    dropped-view :
        (k : EntryId) → view M Q D R k dropped ≡ (if id == k then none else view M Q D R k c)
    dropped-view k = elim (ℕ_discrete id k) [
      | yes p ↦ ground (arith, lookup-remove id k c.index, dropped_hot k)
      | no p ↦ ground (arith, lookup-remove id k c.index, dropped_hot k)
    ]

    dropped-valid : IsValidBut M Q D R nobody dropped
    dropped-valid = record {
      room = elim (Bool-cases (is_hot d.cached)) [
        | inl t ↦ rw t (omega (arith, length-remove-le id c.hot, v.room))
        | inr f ↦ rw f v.room
      ];
      positive = v.positive;
      tracked = λ k h. ground (arith, dropped_hot k, v.tracked k);
      hot_indexed =
          λ k h. ground (arith, dropped_hot k, v.hot_indexed k, lookup-remove id k c.index);
      flight_indexed =
          λ k place f h. ground (arith, v.flight_indexed k place, lookup-remove id k c.index);
      placed = λ k place h o. elim (ℕ_discrete id k) [
        | yes p ↦ absurd (ground (arith, lookup-remove id k c.index))
        | no p ↦ ground (arith, dropped_hot k, v.placed k place, lookup-remove id k c.index)
      ];
    }

  removed_lem :
      (id : EntryId) (d : EntryData Score) (c : DynamicCorpus M Q D)
      (v : IsValidBut M Q D R nobody c) (known : lookup id c.index ≡ some d)
      → remove_entry M Q D id c ≡ dropped id c v d known
  unfolding remove_entry remove_hot
  removed_lem id d c v known = rw (known, remove_entry) (place_lem d.cached)
    where
      place_lem :
          (place : CacheLocation)
          → remove_hot M Q D place id (record c { index = remove id c.index }) ≡ record c {
            index = remove id c.index;
            hot = if is_hot place then remove id c.hot else c.hot;
          }
      place_lem hot = refl
      place_lem (in_flight round) = refl
      place_lem disk = refl

  -- On a valid corpus, `remove` keeps the invariant, the id is gone from the abstract map, and
  -- every other id reads as before.
  pub remove-view :
      (id : EntryId) (c : DynamicCorpus M Q D)
      → IsValid M Q D R c
      → IsValid M Q D R (remove_entry M Q D id c)
        × ((k : EntryId)
            → view M Q D R k (remove_entry M Q D id c)
              ≡ (if id == k then none else view M Q D R k c))
  unfolding remove_entry
  remove-view id c v = elim (Option-cases (lookup id c.index)) [
    | inl gone ↦
        rw (gone, remove_entry)
          (
            v,
            λ k. elim (ℕ_discrete id k) [
              | yes p ↦
                  let none_at : lookup k c.index ≡ none = rw p at gone in rw none_at (ground arith)
              | no p ↦ ground arith
            ],
          )
    | inr (d, known) ↦ rw (removed_lem id d c v.sound known) (
      record {
        sound = dropped-valid id c v.sound d known;
        flying_bounded = v.flying_bounded;
        cap_bounded = v.cap_bounded;
      },
      dropped-view id c v.sound d known,
    )
  ]

  -- `clear` leaves a valid corpus whose map is empty.
  pub clear-view :
      (c : DynamicCorpus M Q D)
      → IsValid M Q D R c
      → IsValid M Q D R (clear M Q D c) × ((k : EntryId) → view M Q D R k (clear M Q D c) ≡ none)
  unfolding clear
  clear-view c v = (
    record {
      sound = record {
        room = omega arith;
        positive = v.sound.positive;
        tracked = λ k h. absurd (ground arith);
        hot_indexed = λ k h. absurd (ground arith);
        flight_indexed = λ k place f h. absurd (ground arith);
        placed = λ k place h o. absurd (ground arith);
      };
      flying_bounded = rw M.entries-empty (omega arith);
      cap_bounded = v.cap_bounded;
    },
    λ k. refl,
  )

  recapped :
      (c : DynamicCorpus M Q D) (cap misses requests : ℕ)
      → IsValid M Q D R c
      → c.hot_cap ≤ cap
      → cap ≤ cache_cap
      → IsValid M Q D R (record c { hot_cap = cap; cache_misses = misses; requests = requests })
  recapped c cap misses requests v grows bounded = record {
    sound = record {
      room = omega (arith, v.sound.room, grows);
      positive = omega (arith, v.sound.positive, grows);
      tracked = v.sound.tracked;
      hot_indexed = v.sound.hot_indexed;
      flight_indexed = v.sound.flight_indexed;
      placed = v.sound.placed;
    };
    flying_bounded = v.flying_bounded;
    cap_bounded = bounded;
  }

  -- `resize` keeps the invariant and every reading, and the cap of the hot cache grows or stays,
  -- up to its limit.
  pub resize-view :
      (c : DynamicCorpus M Q D)
      → IsValid M Q D R c
      → IsValid M Q D R (resize M Q D c)
        × ((k : EntryId) → view M Q D R k (resize M Q D c) ≡ view M Q D R k c)
        × (c.hot_cap ≤ (resize M Q D c).hot_cap)
  unfolding resize
  resize-view c v = elim (Bool-cases (ltb c.requests cache_adjustment_tick)) [
    | inl early ↦ rw (early, resize) (v, λ k. refl, omega arith)
    | inr due ↦
        rw (due, resize)
          (elim (Bool-cases
            (ltb (3 * c.requests) (20 * c.cache_misses) && ltb c.hot_cap cache_cap)) [
              | inl grow ↦
                  (let le : c.hot_cap ≤ min (c.hot_cap * 3 / 2) cache_cap =
                      omega (arith, v.cap_bounded) in
                    rw grow (recapped c _ 0 0 v le (omega arith), λ k. refl, le))
              | inr stay ↦
                  rw stay
                    (recapped c c.hot_cap 0 0 v (omega arith) v.cap_bounded, λ k. refl, omega arith)
            ])
  ]

  -- A new corpus is valid.
  pub new-IsValid : (backend : D.Backend) → IsValid M Q D R (new M Q D backend)
  unfolding new
  new-IsValid backend = record {
    sound = record {
      room = omega arith;
      positive = omega arith;
      tracked = λ k h. absurd (ground arith);
      hot_indexed = λ k h. absurd (ground arith);
      flight_indexed = λ k place f h. absurd (ground (arith, M.entries-empty));
      placed = λ k place h o. absurd (ground arith);
    };
    flying_bounded = rw M.entries-empty (omega arith);
    cap_bounded = omega arith;
  }
