-- ===== src/Corpus/Dynamic/Writes.antt =====
-- `update` moves a tree and changes a score; no id reads differently afterwards.
use ast_sqlite_test.Common.{
  ℕ, ◌+◌, ◌%◌, ◌≡◌, refl, Bool, true, some, ltb, ◌∙◌, is_some, arith, Bool-cases, Option-cases, inl,
  inr, ==_refl,
}
use ast_sqlite_test.Common.Assoc.{lookup, modify, lookup-remove, lookup-modify, length-remove-le}
use ast_sqlite_test.Core.Entry.{EntryId}
use ast_sqlite_test.Corpus.Containers.{IndexMap, ScoreQueue}
use ast_sqlite_test.Corpus.Storage.{StorageBackend, IsReliable}
use ast_sqlite_test.Corpus.Dynamic.Invariant.{view, view_in, tree_in, IsValidBut, IsValid, nobody}
use ast_sqlite_test.Corpus.Dynamic.Evict.{evict_cached_if-Kept}
use ast_sqlite_test.Corpus.Dynamic.Moves.{move_to_cache-Rests}
use ast_sqlite_test.Corpus.Dynamic.Reads.{
  Same, Same-trans, Same-of_Kept, Same-of_Rests, Same-IsValid, in_hand, reread,
}
use ast_sqlite_test.Corpus.Dynamic.{
  CacheLocation, in_flight, hot, disk, EntryData, DynamicCorpus, relocate, entry_of,
  evict_cached_if, update_in_flight, update_on_disk, update_at, update, grace_period,
}
use ast_sqlite_test.Corpus.Dynamic.Labels.{relabel, reprioritise-Same}
use ast_sqlite_test.Corpus.Dynamic.Landing.{land-Same}

module _ {A Score : Type 0} {below : Score → Score → Bool} (M : IndexMap A)
    (Q : ScoreQueue Score below) (D : StorageBackend A) (R : IsReliable D) where
  update_on_disk-Same :
      (id : EntryId) (score : Score) (d : EntryData Score) (c : DynamicCorpus M Q D)
      → IsValidBut M Q D R nobody c
      → lookup id c.index ≡ some d
      → d.cached ≡ disk
      → Same M Q D R c (update_on_disk M Q D id score c)
  unfolding update_on_disk
  update_on_disk-Same id score d c v known on_disk =
      let (kept, room) = evict_cached_if-Kept M Q D R nobody (λ cached. below cached score) c v in
      let r = evict_cached_if M Q D (λ cached. below cached score) c in
      let first = Same-of_Kept M Q D R c r.0 kept in
      let known₁ = kept.settled id d known (λ e. ground (arith, e, on_disk)) in
      let k₂ =
        reread M Q D R r.0 (D.retrieve id r.0.disk_cache).0 r.0.cache_misses r.0.requests kept.valid
          (λ k. R.stored-retrieve id k r.0.disk_cache) in
      let c₂ : DynamicCorpus M Q D = record (r.0) {
        disk_cache = (D.retrieve id r.0.disk_cache).0;
      } in
      let read = R.retrieve_stored id r.0.disk_cache in
      let there : is_some (R.stored id r.0.disk_cache) ≡ true =
        kept.valid.placed id disk (rw (known₁, on_disk) refl) refl in
      elim (Bool-cases r.1) [
        | inr f ↦
            rw f
              (Same-trans M Q D R c r.0 _ first (reprioritise-Same M Q D R id score r.0 kept.valid))
        | inl t ↦ elim (Option-cases (R.stored id r.0.disk_cache)) [
          | inl gone ↦ absurd (ground arith)
          | inr (ast, found) ↦
              let seen : view M Q D R id r.0 ≡ some (entry_of M Q D id d ast) =
                rw (known₁, view_in, on_disk, found) refl in
              rw (t, read, found, update_on_disk)
                (Same-trans M Q D R c r.0 _ first (
                  Same-trans M Q D R r.0 c₂ _ k₂ (
                    Same-of_Rests M Q D R id d ast c₂ _
                      (move_to_cache-Rests M Q D R id d ast c₂ (in_hand M Q D R id c₂ k₂.valid)
                        known₁ (ground (arith, kept.valid.flight_indexed id disk, known₁, on_disk))
                        (room t))
                      (k₂.views id ∙ seen))))
        ]
      ]

  update_in_flight-Same :
      (round : ℕ) (id : EntryId) (score : Score) (d : EntryData Score) (c : DynamicCorpus M Q D)
      → IsValidBut M Q D R nobody c
      → lookup id c.index ≡ some d
      → d.cached ≡ in_flight round
      → Same M Q D R c (update_in_flight M Q D round id score c)
  unfolding update_in_flight
  update_in_flight-Same round id score d c v known flies_now =
      let round' = (round + 1) % 256 in
      let f : EntryData Score → EntryData Score = λ e. record e { cached = in_flight round' } in
      let first =
        relabel M Q D R c v id f d known refl refl (rw (flies_now, tree_in) refl)
          (λ e. ground (arith, e, flies_now)) (λ e. refl) in
      let there : is_some (lookup id (M.entries c.flying)) ≡ true =
        v.placed id (in_flight round) (rw (known, flies_now) refl) refl in
      elim (Bool-cases (ltb grace_period round')) [
        | inr no_more ↦ rw no_more (unfold relocate in first)
        | inl over ↦ elim (Option-cases (lookup id (M.entries c.flying))) [
          | inl gone ↦ absurd (ground arith)
          | inr (ast, found) ↦
              let c₁ : DynamicCorpus M Q D = record c { index = modify id f c.index } in
              let known₁ : lookup id c₁.index ≡ some (f d) =
                rw (lookup-modify id id f c.index, ==_refl id, known) refl in
              rw (over, found, update_in_flight)
                (unfold relocate in
                  Same-trans M Q D R c c₁ _ first (
                    land-Same M Q D R c₁ first.valid id (f d) round' ast
                      (M.shift_remove id c.flying) known₁ refl found
                      (λ k ne.
                        rw
                          (
                            M.entries-shift_remove id c.flying,
                            lookup-remove id k (M.entries c.flying),
                            ne,
                          )
                          refl)
                      (rw
                        (
                          M.entries-shift_remove id c.flying,
                          lookup-remove id id (M.entries c.flying),
                          ==_refl id,
                        )
                        refl)
                      score
                      (rw (M.entries-shift_remove id c.flying)
                        (length-remove-le id (M.entries c.flying)))))
        ]
      ]

  update_at-Same :
      (place : CacheLocation) (id : EntryId) (score : Score) (d : EntryData Score)
      (c : DynamicCorpus M Q D)
      → IsValidBut M Q D R nobody c
      → lookup id c.index ≡ some d
      → d.cached ≡ place
      → Same M Q D R c (update_at M Q D place id score c)
  unfolding update_at
  update_at-Same (in_flight round) id score d c v known e =
      update_in_flight-Same round id score d c v known e
  update_at-Same disk id score d c v known e = update_on_disk-Same id score d c v known e
  update_at-Same hot id score d c v known e = reprioritise-Same M Q D R id score c v

  -- `update` keeps the invariant, and every id reads as before: scoring an entry may move
  -- trees between the places, and loses none.
  pub update-view :
      (id : EntryId) (score : Score) (c : DynamicCorpus M Q D)
      → IsValid M Q D R c
      → IsValid M Q D R (update M Q D id score c)
        × ((k : EntryId) → view M Q D R k (update M Q D id score c) ≡ view M Q D R k c)
  unfolding update
  update-view id score c v = elim (Option-cases (lookup id c.index)) [
    | inl gone ↦ rw (gone, update) (v, λ k. refl)
    | inr (d, known) ↦
        let f : EntryData Score → EntryData Score = λ e. record e { score = score } in
        let c₁ : DynamicCorpus M Q D = record c { index = modify id f c.index } in
        let first = relabel M Q D R c v.sound id f d known refl refl refl (λ e. e) (λ e. e) in
        let known₁ : lookup id c₁.index ≡ some (f d) =
          rw (lookup-modify id id f c.index, ==_refl id, known) refl in
        let both =
          Same-trans M Q D R c c₁ _ first
            (update_at-Same d.cached id score (f d) c₁ first.valid known₁ refl) in
        rw (known, update) (Same-IsValid M Q D R c _ v both, both.views)
  ]
