-- ===== src/Corpus/Dynamic/Flight.antt =====
-- The oldest entry leaves the flight to make room.
use ast_sqlite_test.Common.{
  ℕ, ◌-◌, ◌≤◌, ◌≡◌, refl, Bool, true, false, [], ◌∷◌, Option, none, some, subst, ap, ◌∙◌, ◌==◌,
  length, arith, Bool-cases, Option-cases, inl, inr, ==_refl, ==_iff,
}
use ast_sqlite_test.Common.Assoc.{Assoc, lookup, modify, distinct, keys, mem-keys}
use ast_sqlite_test.Core.Entry.{EntryId}
use ast_sqlite_test.Corpus.Containers.{IndexMap, ScoreQueue}
use ast_sqlite_test.Corpus.Storage.{StorageBackend, IsReliable}
use ast_sqlite_test.Corpus.Dynamic.Invariant.{tree_at, view_in, IsValidBut, nobody, flies}
use ast_sqlite_test.Corpus.Dynamic.Reads.{Same, Same-refl}
use ast_sqlite_test.Corpus.Dynamic.Landing.{land-Same, land_flying}
use ast_sqlite_test.Corpus.Dynamic.{
  CacheLocation, in_flight, hot, disk, EntryData, DynamicCorpus, relocate, move_to_disk,
  evict_in_flight,
}

module _ {A Score : Type 0} {below : Score → Score → Bool} (M : IndexMap A)
    (Q : ScoreQueue Score below) (D : StorageBackend A) (R : IsReliable D) where
  -- A write to the backend of an id that the index does not have, beside a smaller flight.
  module _ (c : DynamicCorpus M Q D) (v : IsValidBut M Q D R nobody c) (id : EntryId) (ast : A)
      (flying : M.Map) (fresh : lookup id c.index ≡ none)
      (others : (k : EntryId)
        → (id == k) ≡ false
        → lookup k (M.entries flying) ≡ lookup k (M.entries c.flying))
      (shorter : length (M.entries flying) ≤ length (M.entries c.flying)) where
    abbrev stored_beside : DynamicCorpus M Q D
    stored_beside = record c { flying = flying; disk_cache = (D.write id ast c.disk_cache).0 }

    beside_tree :
        (k : EntryId) (place : CacheLocation)
        → (id == k) ≡ false
        → tree_at M Q D R place k stored_beside ≡ tree_at M Q D R place k c
    beside_tree k (in_flight round) ne = others k ne
    beside_tree k hot ne = refl
    beside_tree k disk ne = rw (R.stored-write id k ast c.disk_cache, ne) refl

    beside_view :
        (k : EntryId) (o : Option (EntryData Score))
        → (id == k) ≡ false
        → view_in M Q D R o k flying c.hot stored_beside.disk_cache
          ≡ view_in M Q D R o k c.flying c.hot c.disk_cache
    beside_view k none ne = refl
    beside_view k (some e) ne = rw (beside_tree k e.cached ne) refl

    pub beside-Same : Same M Q D R c stored_beside
    beside-Same = record {
      valid = record {
        room = v.room;
        positive = v.positive;
        tracked = v.tracked;
        hot_indexed = v.hot_indexed;
        flight_indexed = λ k place f h. elim (Bool-cases (id == k)) [
          | inl e ↦ absurd (
              let gone : lookup k c.index ≡ none = rw (← (==_iff id k).0 e) fresh in
              ground (arith, gone))
          | inr ne ↦ v.flight_indexed k place (rw (← others k ne) f) h
        ];
        placed = λ k place h o. elim (Bool-cases (id == k)) [
          | inl e ↦ absurd (
              let gone : lookup k c.index ≡ none = rw (← (==_iff id k).0 e) fresh in
              ground (arith, gone))
          | inr ne ↦ rw (beside_tree k place ne) (v.placed k place h o)
        ];
      };
      views = λ k. elim (Bool-cases (id == k)) [
        | inl e ↦
            let gone : lookup k c.index ≡ none = rw (← (==_iff id k).0 e) fresh in rw gone refl
        | inr ne ↦ beside_view k (lookup k c.index) ne
      ];
      flying_le = shorter;
      hot_cap = refl;
      absent = λ k h. h;
    }

    move_to_disk_unknown :
        Same M Q D R c (move_to_disk M Q D id ast (record c { flying = flying })).0
    unfolding move_to_disk relocate
    move_to_disk_unknown =
        rw (R.write_ok id ast c.disk_cache, move_to_disk) (rw (fresh, relocate, modify) beside-Same)

  move_to_disk_flying :
      (id : EntryId) (ast : A) (c : DynamicCorpus M Q D)
      → (move_to_disk M Q D id ast c).0.flying ≡ c.flying
  unfolding move_to_disk relocate
  move_to_disk_flying id ast c = elim (Bool-cases (D.write id ast c.disk_cache).1) [
    | inl t ↦ rw t refl
    | inr f ↦ rw f refl
  ]

  flies_lem : (place : CacheLocation) → flies place ≡ true → (round : ℕ) × (place ≡ in_flight round)
  flies_lem (in_flight round) h = (round, refl)
  flies_lem hot h = absurd (ground arith)
  flies_lem disk h = absurd (ground arith)

  pub evict_in_flight-Same :
      (c : DynamicCorpus M Q D)
      → IsValidBut M Q D R nobody c
      → Same M Q D R c (evict_in_flight M Q D c)
        × (length (M.entries (evict_in_flight M Q D c).flying) ≡ length (M.entries c.flying) - 1)
  unfolding evict_in_flight
  evict_in_flight-Same c v = first_lem (M.entries c.flying) refl
    where
      first_lem :
          (es : Assoc A)
          → M.entries c.flying ≡ es
          → Same M Q D R c (evict_in_flight M Q D c)
            × (length (M.entries (evict_in_flight M Q D c).flying)
                ≡ length (M.entries c.flying) - 1)
      first_lem [] none_fly =
          rw (none_fly, evict_in_flight) (Same-refl M Q D R c v, ap length none_fly)
      first_lem (e ∷ rest) some_fly =
          let left = M.shift_remove_first c.flying in
          let left_lem : M.entries left ≡ rest =
            M.entries-shift_remove_first e.0 e.1 rest c.flying some_fly in
          let shorter : length (M.entries left) ≤ length (M.entries c.flying) =
            rw (left_lem, some_fly) (omega arith) in
          let one_less : length (M.entries left) ≡ length (e ∷ rest) - 1 =
            rw left_lem (omega arith) in
          let others : (k : EntryId)
              → (e.0 == k) ≡ false
              → lookup k (M.entries left) ≡ lookup k (M.entries c.flying) =
            λ k ne. rw (left_lem, some_fly, ne) refl in
          let found : lookup e.0 (M.entries c.flying) ≡ some e.1 =
            rw (some_fly, ==_refl e.0) refl in
          let alone : distinct (keys (e ∷ rest)) ≡ true =
            subst (λ es. distinct (keys es) ≡ true) some_fly (M.distinct_keys c.flying) in
          let landed : lookup e.0 (M.entries left) ≡ none =
            rw left_lem (ground (arith, alone, mem-keys e.0 rest)) in
          rw (some_fly, evict_in_flight)
            (elim (Option-cases (lookup e.0 c.index)) [
              | inl gone ↦ rw gone (
                move_to_disk_unknown c v e.0 e.1 left gone others shorter,
                ap (λ m. length (M.entries m)) (move_to_disk_flying e.0 e.1 _) ∙ one_less,
              )
              | inr (d, known) ↦
                  let (round, flies_now) =
                    flies_lem d.cached
                      (v.flight_indexed e.0 d.cached (rw found refl) (rw known refl)) in
                  rw known (
                    land-Same M Q D R c v e.0 d round e.1 left known flies_now found others landed
                        d.score shorter,
                    ap (λ m. length (M.entries m))
                          (land_flying M Q D R c v e.0 d round e.1 left known flies_now found others
                            landed d.score)
                        ∙ one_less,
                  )
            ])
