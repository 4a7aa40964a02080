-- ===== src/Engine/Minimizer/Culling.antt =====
-- Which entries `minimize` removes: those outside every protected set, at their sixth pass.
use ast_sqlite_test.Common.{
  ℕ, suc, ◌+◌, ◌≤◌, ◌≡◌, refl, ap, ◌∙◌, Bool, true, false, not, ◌&&◌, List, [], ◌∷◌, ◌++◌, Option,
  none, some, leb, ◌==◌, if◌then◌else◌, length, filter, all, arith, Bool-cases, inl, inr, ==_iff,
}
use ast_sqlite_test.Common.Assoc.{
  Assoc, mem, distinct, mem-filter, mem-append, distinct-filter, lookup, insert, lookup-insert,
  lookup-remove,
}
use ast_sqlite_test.Core.Entry.{EntryId}
use ast_sqlite_test.Cov.ScoredEdges.{get_best_entries}
use ast_sqlite_test.Engine.Minimizer.{
  GreedyCoverage, Cull, cull_one, cull_all, rotate, minimize, cull_after,
}

-- `f` applied for each id, first to last
abbrev pub for_each {ℓ} : {S : Type ℓ} → (EntryId → S → S) → List EntryId → S → S
for_each f [] s = s
for_each f (x ∷ xs) s = for_each f xs (f x s)

-- An id whose next pass is its last.
abbrev pub ripe : Assoc ℕ → EntryId → Bool
ripe rotation id = leb cull_after (rotate id rotation)

-- The count of an id after a pass in which it was not needed.
abbrev pub counted : Assoc ℕ → EntryId → Option ℕ
counted rotation id = if ripe rotation id then none else some (rotate id rotation)

filter_congr :
    (p q : EntryId → Bool) (xs : List EntryId) (x : EntryId)
    → ((j : EntryId) → (x == j) ≡ false → p j ≡ q j)
    → mem x xs ≡ false
    → filter p xs ≡ filter q xs
filter_congr p q [] x h m = refl
filter_congr p q (y ∷ ys) x h m = ground (arith, filter_congr p q ys x h, h y)

module _ {C S : Type 0} (corpus_remove : EntryId → C → C) (on_remove : EntryId → S → S) where
  lookup-cull_one :
      (id j : EntryId) (st : Cull corpus_remove on_remove)
      → lookup j (cull_one corpus_remove on_remove id st).rotation
        ≡ (if id == j then counted st.rotation id else lookup j st.rotation)
  unfolding cull_one
  lookup-cull_one id j st = ground (
    arith,
    lookup-insert id j (rotate id st.rotation) st.rotation,
    lookup-remove id j (insert id (rotate id st.rotation) st.rotation),
  )

  ripe-cull_one :
      (id j : EntryId) (st : Cull corpus_remove on_remove)
      → (id == j) ≡ false
      → ripe (cull_one corpus_remove on_remove id st).rotation j ≡ ripe st.rotation j
  unfolding rotate
  ripe-cull_one id j st ne = rw (lookup-cull_one id j st, ne, rotate) refl

  cull_all_removes :
      (ids : List EntryId) (st : Cull corpus_remove on_remove)
      → distinct ids ≡ true
      → ((cull_all corpus_remove on_remove ids st).corpus
          ≡ for_each corpus_remove (filter (ripe st.rotation) ids) st.corpus)
        × ((cull_all corpus_remove on_remove ids st).scheduler
            ≡ for_each on_remove (filter (ripe st.rotation) ids) st.scheduler)
  unfolding cull_all
  cull_all_removes [] st d = (refl, refl)
  cull_all_removes (id ∷ ids) st d =
      let fresh : mem id ids ≡ false = ground arith in
      let later : distinct ids ≡ true = ground arith in
      let st' = cull_one corpus_remove on_remove id st in
      let ih = cull_all_removes ids st' later in
      let same =
        filter_congr (ripe st'.rotation) (ripe st.rotation) ids id (λ j. ripe-cull_one id j st)
          fresh in
      (
        ih.0 ∙ rw same (unfold cull_one in ground arith),
        ih.1 ∙ rw same (unfold cull_one in ground arith),
      )

  counted-cull_one :
      (id j : EntryId) (st : Cull corpus_remove on_remove)
      → (id == j) ≡ false
      → counted (cull_one corpus_remove on_remove id st).rotation j ≡ counted st.rotation j
  unfolding rotate
  counted-cull_one id j st ne = rw (lookup-cull_one id j st, ne, rotate) refl

  pass_step :
      (id j : EntryId) (ids : List EntryId) (st : Cull corpus_remove on_remove)
      → mem id ids ≡ false
      → (if mem j ids
          then counted (cull_one corpus_remove on_remove id st).rotation j
          else lookup j (cull_one corpus_remove on_remove id st).rotation)
        ≡ (if mem j (id ∷ ids) then counted st.rotation j else lookup j st.rotation)
  pass_step id j ids st fresh = elim (Bool-cases (id == j)) [
    | inr ne ↦ rw (lookup-cull_one id j st, counted-cull_one id j st ne, ne) refl
    | inl e ↦
        let same : id ≡ j = (==_iff id j).0 e in
        let gone : mem j ids ≡ false = rw same at fresh in
        rw (gone, lookup-cull_one id j st, e) (rw same refl)
  ]

  lookup-cull_all :
      (ids : List EntryId) (j : EntryId) (st : Cull corpus_remove on_remove)
      → distinct ids ≡ true
      → lookup j (cull_all corpus_remove on_remove ids st).rotation
        ≡ (if mem j ids then counted st.rotation j else lookup j st.rotation)
  unfolding cull_all
  lookup-cull_all [] j st d = refl
  lookup-cull_all (id ∷ ids) j st d =
      lookup-cull_all ids j (cull_one corpus_remove on_remove id st) (ground arith)
      ∙ pass_step id j ids st (ground arith)

  -- The state after one call of the culling loop for each set of ids.
  abbrev pub passes :
      List (List EntryId) → Cull corpus_remove on_remove → Cull corpus_remove on_remove
  passes [] st = st
  passes (ids ∷ rest) st = passes rest (cull_all corpus_remove on_remove ids st)

  abbrev seen : Option ℕ → ℕ
  seen none = 0
  seen (some n) = suc n

  seen-passes :
      (ps : List (List EntryId)) (id : EntryId) (st : Cull corpus_remove on_remove)
      → all (λ ids. distinct ids && mem id ids) ps ≡ true
      → seen (lookup id st.rotation) + length ps ≤ cull_after
      → seen (lookup id (passes ps st).rotation) ≡ seen (lookup id st.rotation) + length ps
  seen-passes [] id st h few = omega arith
  seen-passes (ids ∷ ps) id st h few =
      let here : mem id ids ≡ true = ground arith in
      let step : lookup id (cull_all corpus_remove on_remove ids st).rotation
          ≡ counted st.rotation id =
        lookup-cull_all ids id st (ground arith) ∙ rw here refl in
      let more : seen (counted st.rotation id) ≡ suc (seen (lookup id st.rotation)) =
        unfold rotate in ground arith in
      let e : seen (lookup id (cull_all corpus_remove on_remove ids st).rotation)
          ≡ suc (seen (lookup id st.rotation)) =
        ap seen step ∙ more in
      let rest =
        seen-passes ps id (cull_all corpus_remove on_remove ids st) (ground arith)
          (omega (arith, e, few)) in
      omega (arith, e, rest)

  -- An id that is not counted yet, and is outside the protected sets at every pass, is spared
  -- by the first five passes and is due at the sixth.
  pub sixth_pass :
      (ps : List (List EntryId)) (id : EntryId) (st : Cull corpus_remove on_remove)
      → all (λ ids. distinct ids && mem id ids) ps ≡ true
      → lookup id st.rotation ≡ none
      → length ps ≤ cull_after
      → ripe (passes ps st).rotation id ≡ (length ps == cull_after)
  unfolding rotate
  sixth_pass ps id st h new few =
      let zero_seen : seen (lookup id st.rotation) ≡ 0 = rw new refl in
      let after = seen-passes ps id st h (omega (arith, zero_seen, few)) in
      ground (arith, zero_seen, after)

  -- `minimize` removes one list of ids, from the corpus and from the scheduler alike. An id is
  -- in it exactly when it is in the corpus, is best for no edge, is neither protected by the
  -- corpus nor in the window of diverse entries, and has been counted in five passes before.
  -- The best entries and the window stay.
  pub minimize_removes :
      (g : GreedyCoverage) (ids protected : List EntryId) (corpus : C) (scheduler : S)
      → distinct ids ≡ true
      → (culled : List EntryId) × (rotation : Assoc ℕ) × (minimize corpus_remove on_remove g ids
            protected corpus scheduler
          ≡ (
            record g { gc_rotation = rotation },
            for_each corpus_remove culled corpus,
            for_each on_remove culled scheduler,
          ))
        × ((id : EntryId)
            → mem id culled
              ≡ mem id ids
                && not (mem id (get_best_entries g.best_edges))
                && not (mem id protected)
                && not (mem id g.diversity.entries)
                && ripe g.gc_rotation id)
  unfolding minimize
  minimize_removes g ids protected corpus scheduler d =
      let best = get_best_entries g.best_edges ++ protected ++ g.diversity.entries in
      let unneeded : EntryId → Bool = λ id. not (mem id best) in
      let st : Cull corpus_remove on_remove = record {
        rotation = g.gc_rotation;
        corpus = corpus;
        scheduler = scheduler;
      } in
      let bad = filter unneeded ids in
      let r = cull_all_removes bad st (distinct-filter unneeded ids d) in
      (
        filter (ripe g.gc_rotation) bad,
        (cull_all corpus_remove on_remove bad st).rotation,
        rw (r.0, r.1) refl,
        λ id.
            mem-filter (ripe g.gc_rotation) bad id
            ∙ rw
                (
                  mem-filter unneeded ids id,
                  mem-append id (get_best_entries g.best_edges ++ protected) g.diversity.entries,
                  mem-append id (get_best_entries g.best_edges) protected,
                )
                (ground arith),
      )
