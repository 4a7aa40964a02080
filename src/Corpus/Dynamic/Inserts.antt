-- ===== src/Corpus/Dynamic/Inserts.antt =====
-- Inserting: what it does to the abstract map.
use ast_sqlite_test.Common.{
  ◌+◌, ◌≤◌, ◌≡◌, refl, Bool, none, some, leb, subst, ap, ◌∙◌, ◌==◌, if◌then◌else◌, length, arith,
  Bool-cases, inl, inr, ℕ_discrete,
}
use ast_sqlite_test.Common.Assoc.{lookup, insert, lookup-insert, length-insert}
use ast_sqlite_test.Core.Entry.{EntryId, CorpusEntry}
use ast_sqlite_test.Corpus.Containers.{IndexMap, ScoreQueue}
use ast_sqlite_test.Corpus.Storage.{StorageBackend, IsReliable}
use ast_sqlite_test.Corpus.Dynamic.Invariant.{view, IsValidBut, IsValid, nobody}
use ast_sqlite_test.Corpus.Dynamic.Reads.{Same, Same-trans}
use ast_sqlite_test.Corpus.Dynamic.{
  in_flight, DynamicCorpus, evict_in_flight, insert_new, in_flight_cap,
}
use ast_sqlite_test.Corpus.Dynamic.Flight.{beside-Same, evict_in_flight-Same}

module _ {A Score : Type 0} {below : Score → Score → Bool} (M : IndexMap A)
    (Q : ScoreQueue Score below) (D : StorageBackend A) (R : IsReliable D) where
  module _ (e : CorpusEntry A) (score : Score) (c : DynamicCorpus M Q D) (v : IsValid M Q D R c)
      (fresh : lookup e.raw.id c.index ≡ none) where
    abbrev written : DynamicCorpus M Q D
    written = record c { disk_cache = (D.write e.raw.id e.raw.ast c.disk_cache).0 }

    written-Same : Same M Q D R c written
    written-Same =
        beside-Same M Q D R c v.sound e.raw.id e.raw.ast c.flying fresh (λ k ne. refl) (omega arith)

    abbrev roomy : DynamicCorpus M Q D
    roomy =
        if leb in_flight_cap (length (M.entries c.flying))
        then evict_in_flight M Q D written
        else written

    roomy-Same : Same M Q D R c roomy × (length (M.entries roomy.flying) + 1 ≤ in_flight_cap)
    roomy-Same = elim (Bool-cases (leb in_flight_cap (length (M.entries c.flying)))) [
      | inl full ↦
          let (same, one_less) = evict_in_flight-Same M Q D R written written-Same.valid in
          rw full (
            Same-trans M Q D R c written _ written-Same same,
            rw one_less (ground (arith, v.flying_bounded)),
          )
      | inr room ↦ rw room (written-Same, ground (arith, room))
    ]

  -- The new entry in flight.
  module _ (e : CorpusEntry A) (score : Score) (c : DynamicCorpus M Q D)
      (v : IsValidBut M Q D R nobody c) (fresh : lookup e.raw.id c.index ≡ none) where
    abbrev entered : DynamicCorpus M Q D
    entered = record c {
      flying = M.insert_entry e.raw.id e.raw.ast c.flying;
      index =
          insert e.raw.id
            (record { parents = e.raw.parents; meta = e.meta; score = score; cached = in_flight 0 })
            c.index;
    }

    entered_flying :
        (k : EntryId)
        → lookup k (M.entries entered.flying)
          ≡ (if e.raw.id == k then some e.raw.ast else lookup k (M.entries c.flying))
    entered_flying k =
        rw (M.entries-insert_entry e.raw.id e.raw.ast c.flying)
          (lookup-insert e.raw.id k e.raw.ast (M.entries c.flying))

    entered_index :
        (k : EntryId)
        → lookup k entered.index ≡ (
            if e.raw.id == k
            then some (record {
              parents = e.raw.parents;
              meta = e.meta;
              score = score;
              cached = in_flight 0;
            })
            else lookup k c.index)
    entered_index k = lookup-insert e.raw.id k _ c.index

    entered-view :
        (k : EntryId)
        → view M Q D R k entered ≡ (if e.raw.id == k then some e else view M Q D R k c)
    entered-view k = elim (ℕ_discrete e.raw.id k) [
      | yes p ↦
          subst (λ j. view M Q D R j entered ≡ (if e.raw.id == j then some e else view M Q D R j c))
            p (ground (arith, entered_index e.raw.id, entered_flying e.raw.id))
      | no p ↦ ground (arith, entered_index k, entered_flying k)
    ]

    entered-valid : IsValidBut M Q D R nobody entered
    entered-valid = record {
      room = v.room;
      positive = v.positive;
      tracked = v.tracked;
      hot_indexed = λ k h. elim (ℕ_discrete e.raw.id k) [
        | yes p ↦ absurd (
            let gone : lookup k c.index ≡ none = rw p at fresh in
            ground (arith, v.hot_indexed k h, gone))
        | no p ↦ ground (arith, entered_index k, v.hot_indexed k h)
      ];
      flight_indexed = λ k place f h.
          ground (arith, entered_index k, entered_flying k, v.flight_indexed k place);
      placed = λ k place h o. elim (ℕ_discrete e.raw.id k) [
        | yes p ↦ ground (arith, entered_index k, entered_flying k)
        | no p ↦ ground (arith, entered_index k, entered_flying k, v.placed k place)
      ];
    }

  -- On a valid corpus that does not have the entry's id, `insert` keeps the invariant (with it
  -- the bound on the entries in flight), the new entry reads back as it was given, and every
  -- other id reads as before.
  pub insert-view :
      (e : CorpusEntry A) (score : Score) (c : DynamicCorpus M Q D)
      → IsValid M Q D R c
      → lookup e.raw.id c.index ≡ none
      → IsValid M Q D R (insert_new M Q D e score c)
        × ((k : EntryId)
            → view M Q D R k (insert_new M Q D e score c)
              ≡ (if e.raw.id == k then some e else view M Q D R k c))
  unfolding insert_new
  insert-view e score c v fresh =
      let (same, room) = roomy-Same e score c v fresh in
      let c₂ = roomy e score c v fresh in
      let gone = same.absent e.raw.id fresh in
      (
        record {
          sound = entered-valid e score c₂ same.valid gone;
          flying_bounded =
              rw (M.entries-insert_entry e.raw.id e.raw.ast c₂.flying)
                (omega (arith, room, length-insert e.raw.id e.raw.ast (M.entries c₂.flying)));
          cap_bounded = rw same.hot_cap v.cap_bounded;
        },
        λ k.
            entered-view e score c₂ same.valid gone k
            ∙ ap (λ rest. if e.raw.id == k then some e else rest) (same.views k),
      )
