-- ===== src/Corpus/Dynamic/Labels.antt =====
-- A change of the data that the index keeps of an entry, and of its place in the queue.
use ast_sqlite_test.Common.{
  ◌≡◌, refl, Bool, true, some, subst, ◌==◌, if◌then◌else◌, is_some, arith, Option-cases, inl, inr,
  ℕ_discrete,
}
use ast_sqlite_test.Common.Assoc.{lookup, modify, lookup-modify}
use ast_sqlite_test.Core.Entry.{EntryId}
use ast_sqlite_test.Corpus.Containers.{IndexMap, ScoreQueue}
use ast_sqlite_test.Corpus.Storage.{StorageBackend, IsReliable}
use ast_sqlite_test.Corpus.Dynamic.Invariant.{
  tree_at, view, tree_in, spot, IsValidBut, nobody, flies,
}
use ast_sqlite_test.Corpus.Dynamic.Reads.{Same}
use ast_sqlite_test.Corpus.Dynamic.{CacheLocation, hot, EntryData, DynamicCorpus, reprioritise}

module _ {A Score : Type 0} {below : Score → Score → Bool} (M : IndexMap A)
    (Q : ScoreQueue Score below) (D : StorageBackend A) (R : IsReliable D) where
  -- A change of an entry's data that keeps where its tree is and what is read of it.
  module _ (c : DynamicCorpus M Q D) (v : IsValidBut M Q D R nobody c) (id : EntryId)
      (f : EntryData Score → EntryData Score) (d : EntryData Score)
      (known : lookup id c.index ≡ some d) (parents : (f d).parents ≡ d.parents)
      (meta : (f d).meta ≡ d.meta)
      (tree : tree_in M Q D R (f d).cached id c.flying c.hot c.disk_cache
        ≡ tree_in M Q D R d.cached id c.flying c.hot c.disk_cache)
      (stays_hot : d.cached ≡ hot → (f d).cached ≡ hot)
      (stays_flying : flies d.cached ≡ true → flies (f d).cached ≡ true) where
    abbrev relabelled : DynamicCorpus M Q D
    relabelled = record c { index = modify id f c.index }

    at_label :
        (k : EntryId)
        → lookup k relabelled.index ≡ (if id == k then some (f d) else lookup k c.index)
    at_label k = rw (lookup-modify id k f c.index, known) refl

    label_view : (k : EntryId) → view M Q D R k relabelled ≡ view M Q D R k c
    label_view k = elim (ℕ_discrete id k) [
      | yes p ↦
          subst (λ j. view M Q D R j relabelled ≡ view M Q D R j c) p
            (let at = at_label id in ground (arith, at, known, tree, parents, meta))
      | no p ↦ ground (arith, at_label k)
    ]

    label_placed :
        (k : EntryId) (place : CacheLocation)
        → spot M Q D R k relabelled ≡ some place
        → is_some (tree_at M Q D R place k relabelled) ≡ true
    label_placed k place h = elim (ℕ_discrete id k) [
      | yes p ↦
          let here : is_some (tree_in M Q D R d.cached id c.flying c.hot c.disk_cache) ≡ true =
            v.placed id d.cached (rw known refl) refl in
          let moved : (f d).cached ≡ place = ground (arith, at_label k, h) in
          subst (λ j. is_some (tree_in M Q D R place j c.flying c.hot c.disk_cache) ≡ true) p
            (rw (← moved) (rw tree here))
      | no p ↦ ground (arith, at_label k, v.placed k place)
    ]

    label_flight :
        (k : EntryId) (place : CacheLocation)
        → is_some (lookup k (M.entries c.flying)) ≡ true
        → spot M Q D R k relabelled ≡ some place
        → flies place ≡ true
    label_flight k place g h = elim (ℕ_discrete id k) [
      | yes p ↦
          let at_k : lookup k c.index ≡ some d = rw p at known in
          let was = v.flight_indexed k d.cached g (rw at_k refl) in
          let now : (f d).cached ≡ place = ground (arith, at_label k, h) in
          rw (← now) (stays_flying was)
      | no p ↦ ground (arith, at_label k, v.flight_indexed k place g)
    ]

    pub relabel : Same M Q D R c relabelled
    relabel = record {
      valid = record {
        room = v.room;
        positive = v.positive;
        tracked = v.tracked;
        hot_indexed = λ k h. elim (ℕ_discrete id k) [
          | yes p ↦
              let was = v.hot_indexed k h in
              let at_k : lookup k c.index ≡ some d = rw p at known in
              ground (arith, at_label k, was, at_k, stays_hot)
          | no p ↦ ground (arith, at_label k, v.hot_indexed k h)
        ];
        flight_indexed = λ k place g h. label_flight k place g h;
        placed = λ k place h o. label_placed k place h;
      };
      views = label_view;
      flying_le = omega arith;
      hot_cap = refl;
      absent = λ k h. elim (ℕ_discrete id k) [
        | yes p ↦
            let at_k : lookup k c.index ≡ some d = rw p at known in absurd (ground (arith, at_k, h))
        | no p ↦ ground (arith, at_label k, h)
      ];
    }

  pub reprioritise-Same :
      (id : EntryId) (score : Score) (c : DynamicCorpus M Q D)
      → IsValidBut M Q D R nobody c
      → Same M Q D R c (reprioritise M Q D id score c)
  unfolding reprioritise
  reprioritise-Same id score c v = record {
    valid = record {
      room = v.room;
      positive = v.positive;
      tracked = λ k h. elim (Option-cases (Q.score_of id c.hot_eviction)) [
        | inl none_held ↦
            rw (Q.change_priority_absent id score c.hot_eviction none_held) (v.tracked k h)
        | inr (old, held_at) ↦
            ground (
              arith,
              v.tracked k h,
              Q.score_of-change_priority id k score old c.hot_eviction held_at,
            )
      ];
      hot_indexed = v.hot_indexed;
      flight_indexed = v.flight_indexed;
      placed = v.placed;
    };
    views = λ k. refl;
    flying_le = omega arith;
    hot_cap = refl;
    absent = λ k h. h;
  }
