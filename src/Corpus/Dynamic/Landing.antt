-- ===== src/Corpus/Dynamic/Landing.antt =====
-- An entry that leaves the flight: it rests in the hot cache or on disk, and reads as before.
use ast_sqlite_test.Common.{
  ℕ, ◌≤◌, ◌≡◌, refl, Bool, true, false, Option, none, some, subst, sym, ◌∙◌, ◌==◌, length, is_some,
  arith, Bool-cases, inl, inr, ==_iff,
}
use ast_sqlite_test.Common.Assoc.{lookup}
use ast_sqlite_test.Core.Entry.{EntryId}
use ast_sqlite_test.Corpus.Containers.{IndexMap, ScoreQueue}
use ast_sqlite_test.Corpus.Storage.{StorageBackend, IsReliable}
use ast_sqlite_test.Corpus.Dynamic.Invariant.{
  view, view_in, tree_in, spot, IsValidBut, nobody, flies,
}
use ast_sqlite_test.Corpus.Dynamic.Moves.{held, land-Rests}
use ast_sqlite_test.Corpus.Dynamic.Reads.{Same}
use ast_sqlite_test.Corpus.Dynamic.{
  CacheLocation, in_flight, hot, disk, EntryData, DynamicCorpus, land, entry_of,
}

module _ {A Score : Type 0} {below : Score → Score → Bool} (M : IndexMap A)
    (Q : ScoreQueue Score below) (D : StorageBackend A) (R : IsReliable D) where
  -- An entry that is taken out of flight, and comes to rest.
  module _ (c : DynamicCorpus M Q D) (v : IsValidBut M Q D R nobody c) (id : EntryId)
      (d : EntryData Score) (round : ℕ) (ast : A) (flying : M.Map)
      (known : lookup id c.index ≡ some d) (flies_now : d.cached ≡ in_flight round)
      (found : lookup id (M.entries c.flying) ≡ some ast)
      (others : (k : EntryId)
        → (id == k) ≡ false
        → lookup k (M.entries flying) ≡ lookup k (M.entries c.flying))
      (landed : lookup id (M.entries flying) ≡ none) where
    abbrev taken : DynamicCorpus M Q D
    taken = record c { flying = flying }

    other_tree :
        (k : EntryId) (place : CacheLocation)
        → (id == k) ≡ false
        → tree_in M Q D R place k flying c.hot c.disk_cache
          ≡ tree_in M Q D R place k c.flying c.hot c.disk_cache
    other_tree k (in_flight r) ne = others k ne
    other_tree k hot ne = refl
    other_tree k disk ne = refl

    other_view :
        (k : EntryId) (o : Option (EntryData Score))
        → (id == k) ≡ false
        → view_in M Q D R o k flying c.hot c.disk_cache
          ≡ view_in M Q D R o k c.flying c.hot c.disk_cache
    other_view k none ne = refl
    other_view k (some e) ne = rw (other_tree k e.cached ne) refl

    taken_flight :
        (k : EntryId) (place : CacheLocation)
        → is_some (lookup k (M.entries flying)) ≡ true
        → spot M Q D R k c ≡ some place
        → flies place ≡ true
    taken_flight k place f h = elim (Bool-cases (id == k)) [
      | inl e ↦
          let same : id ≡ k = (==_iff id k).0 e in
          let gone : lookup k (M.entries flying) ≡ none = rw same at landed in
          absurd (ground (arith, gone))
      | inr ne ↦ v.flight_indexed k place (rw (← others k ne) f) h
    ]

    taken-valid : IsValidBut M Q D R (held M Q D R id) taken
    taken-valid = record {
      room = v.room;
      positive = v.positive;
      tracked = v.tracked;
      hot_indexed = v.hot_indexed;
      flight_indexed = taken_flight;
      placed = λ k place h o. rw (other_tree k place o) (v.placed k place h refl);
    }

    pub land-Same :
        (score : Score)
        → length (M.entries flying) ≤ length (M.entries c.flying)
        → Same M Q D R c (land M Q D id ast score taken)
    land-Same score shorter =
        let rests =
          land-Rests M Q D R id d ast score taken taken-valid known
            (λ e. ground (arith, e, flies_now)) landed in
        let seen : view M Q D R id c ≡ some (entry_of M Q D id d ast) =
          rw (known, view_in, flies_now, found) refl in
        record {
          valid = rests.valid;
          views = λ k. elim (Bool-cases (id == k)) [
            | inl e ↦
                let same : id ≡ k = (==_iff id k).0 e in
                rests.views k
                ∙ rw e
                    (subst (λ j. some (entry_of M Q D id d ast) ≡ view M Q D R j c) same (sym seen))
            | inr ne ↦ rests.views k ∙ rw ne (other_view k (lookup k c.index) ne)
          ];
          flying_le = rw rests.flying shorter;
          hot_cap = rests.hot_cap;
          absent = rests.absent;
        }

    pub land_flying : (score : Score) → (land M Q D id ast score taken).flying ≡ flying
    land_flying score =
        (land-Rests M Q D R id d ast score taken taken-valid known
          (λ e. ground (arith, e, flies_now)) landed).flying
