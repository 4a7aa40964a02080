-- ===== src/Corpus/Dynamic/Protected/Highest.antt =====
-- `select_nth_unstable_by` in `protected_ids` takes the entries with the highest scores.
use ast_sqlite_test.Common.{
  ℕ, zero, suc, ◌-◌, ◌≡◌, refl, Bool, true, false, not, ◌&&◌, ◌||◌, [], ◌∷◌, some, ltb, ◌==◌,
  if◌then◌else◌, length, drop, all, arith, Bool-cases, inl, inr, subst, ◌∙◌,
}
use ast_sqlite_test.Common.Assoc.{Assoc, mem, distinct, keys, lookup, mem-keys}
use ast_sqlite_test.Core.Entry.{EntryId}
use ast_sqlite_test.Corpus.Containers.{IndexMap, ScoreQueue}
use ast_sqlite_test.Corpus.Storage.{StorageBackend}
use ast_sqlite_test.Corpus.Dynamic.{EntryData, DynamicCorpus}
use ast_sqlite_test.Corpus.Dynamic.Protected.{
  extend_lem, place, by_score, protected_target, protected_ids,
}

mem-drop :
    {V : Type 0} (n : ℕ) (a : EntryId) (m : Assoc V)
    → mem a (keys (drop n m)) ≡ true
    → mem a (keys m) ≡ true
mem-drop zero a m h = h
mem-drop (suc n) a [] h = h
mem-drop (suc n) a (e ∷ m) h = ground (arith, mem-drop n a m h)

module _ {A Score : Type 0} {below : Score → Score → Bool} (M : IndexMap A)
    (Q : ScoreQueue Score below) (D : StorageBackend A)
    (asym : (x y : Score) → below x y ≡ true → below y x ≡ false)
    (trans : (x y z : Score) → below y x ≡ false → below z y ≡ false → below z x ≡ false) where
  -- No entry of the list scores lower than `s`.
  abbrev no_lower : Score → Assoc (EntryData Score) → Bool
  no_lower s m = all (λ e. not (below e.1.score s)) m

  abbrev ascending : Assoc (EntryData Score) → Bool
  ascending [] = true
  ascending (e ∷ m) = no_lower e.1.score m && ascending m

  no_lower_trans :
      (s s' : Score) (m : Assoc (EntryData Score))
      → below s' s ≡ false
      → no_lower s' m ≡ true
      → no_lower s m ≡ true
  no_lower_trans s s' [] h l = refl
  no_lower_trans s s' (e ∷ m) h l = ground (arith, no_lower_trans s s' m h, trans s s' e.1.score h)

  no_lower-place :
      (s : Score) (e : EntryId × EntryData Score) (m : Assoc (EntryData Score))
      → below e.1.score s ≡ false
      → no_lower s m ≡ true
      → no_lower s (place M Q D e m) ≡ true
  unfolding place
  no_lower-place s e [] h l = ground (arith, h)
  no_lower-place s e (e' ∷ m) h l = ground (arith, h, l, no_lower-place s e m h)

  ascending-place :
      (e : EntryId × EntryData Score) (m : Assoc (EntryData Score))
      → ascending m ≡ true
      → ascending (place M Q D e m) ≡ true
  unfolding place
  ascending-place e [] a = refl
  ascending-place e (e' ∷ m) a = elim (Bool-cases (below e'.1.score e.1.score)) [
    | inl t ↦ rw t (
        ground (
          arith,
          a,
          ascending-place e m,
          no_lower-place e'.1.score e m (asym e'.1.score e.1.score t),
        ))
    | inr f ↦ rw f (ground (arith, a, f, no_lower_trans e.1.score e'.1.score m f))
  ]

  by_score-Ascending : (m : Assoc (EntryData Score)) → ascending (by_score M Q D m) ≡ true
  unfolding by_score
  by_score-Ascending [] = refl
  by_score-Ascending (e ∷ m) = ascending-place e (by_score M Q D m) (by_score-Ascending m)

  mem-place :
      (k : EntryId) (e : EntryId × EntryData Score) (m : Assoc (EntryData Score))
      → mem k (keys (place M Q D e m)) ≡ (e.0 == k) || mem k (keys m)
  unfolding place
  mem-place k e [] = ground arith
  mem-place k e (e' ∷ m) = ground (arith, mem-place k e m)

  mem-by_score :
      (k : EntryId) (m : Assoc (EntryData Score)) → mem k (keys (by_score M Q D m)) ≡ mem k (keys m)
  unfolding by_score
  mem-by_score k [] = refl
  mem-by_score k (e ∷ m) = ground (arith, mem-by_score k m, mem-place k e (by_score M Q D m))

  place_lem :
      (e : EntryId × EntryData Score) (m : Assoc (EntryData Score))
      → mem e.0 (keys m) ≡ false
      → distinct (keys m) ≡ true
      → (distinct (keys (place M Q D e m)) ≡ true)
        × ((k : EntryId) → lookup k (place M Q D e m) ≡ (if e.0 == k then some e.1 else lookup k m))
  unfolding place
  place_lem e [] f d = (refl, λ k. refl)
  place_lem e (e' ∷ m) f d =
      let later : mem e.0 (keys m) ≡ false = ground (arith, f) in
      let (d', l) = place_lem e m later (ground (arith, d)) in
      (ground (arith, d', d, f, mem-place e'.0 e m), λ k. ground (arith, l k, f))

  by_score_lem :
      (m : Assoc (EntryData Score))
      → distinct (keys m) ≡ true
      → (distinct (keys (by_score M Q D m)) ≡ true)
        × ((k : EntryId) → lookup k (by_score M Q D m) ≡ lookup k m)
  unfolding by_score
  by_score_lem [] d = (refl, λ k. refl)
  by_score_lem (e ∷ m) d =
      let (d', l) = by_score_lem m (ground (arith, d)) in
      let fresh : mem e.0 (keys (by_score M Q D m)) ≡ false =
        ground (arith, d, mem-by_score e.0 m) in
      let (d₁, l₁) = place_lem e (by_score M Q D m) fresh d' in (d₁, λ k. ground (arith, l k, l₁ k))

  lookup-no_lower :
      (s : Score) (a : EntryId) (da : EntryData Score) (m : Assoc (EntryData Score))
      → no_lower s m ≡ true
      → lookup a m ≡ some da
      → below da.score s ≡ false
  lookup-no_lower s a da [] l h = cc
  lookup-no_lower s a da (e ∷ m) l h = elim (Bool-cases (e.0 == a)) [
    | inl t ↦
        let same : e.1 ≡ da = ground (arith, h, t) in
        subst (λ d. below d.score s ≡ false) same (ground (arith, l))
    | inr f ↦ lookup-no_lower s a da m (ground (arith, l)) (ground (arith, h, f))
  ]

  drop_highest :
      (n : ℕ) (a b : EntryId) (da db : EntryData Score) (m : Assoc (EntryData Score))
      → ascending m ≡ true
      → distinct (keys m) ≡ true
      → lookup a m ≡ some da
      → lookup b m ≡ some db
      → mem a (keys (drop n m)) ≡ true
      → mem b (keys (drop n m)) ≡ false
      → below da.score db.score ≡ false
  drop_highest zero a b da db m s d ha hb ma mb = ground (arith, mem-keys b m, hb, mb)
  drop_highest (suc n) a b da db [] s d ha hb ma mb = cc
  drop_highest (suc n) a b da db (e ∷ m) s d ha hb ma mb =
      let there = mem-drop n a m ma in
      elim (Bool-cases (e.0 == a)) [
        | inl t ↦ let p : e.0 ≡ a = ground (arith, t) in ground (arith, p, there, d)
        | inr f ↦
            let ha' : lookup a m ≡ some da = ground (arith, ha, f) in
            elim (Bool-cases (e.0 == b)) [
              | inl t ↦
                  let same : e.1 ≡ db = ground (arith, hb, t) in
                  subst (λ d. below da.score d.score ≡ false) same
                    (lookup-no_lower e.1.score a da m (ground (arith, s)) ha')
              | inr f' ↦
                  drop_highest n a b da db m (ground (arith, s)) (ground (arith, d)) ha'
                    (ground (arith, hb, f')) ma mb
            ]
      ]

  -- Where `below` orders the scores as numbers are, and the index has an id once, an entry that is
  -- protected but not in flight scores no lower than an entry that is not protected.
  pub protected_ids_highest :
      (c : DynamicCorpus M Q D) (a b : EntryId) (da db : EntryData Score)
      → distinct (keys c.index) ≡ true
      → lookup a c.index ≡ some da
      → lookup b c.index ≡ some db
      → mem a (protected_ids M Q D c) ≡ true
      → mem a (keys (M.entries c.flying)) ≡ false
      → mem b (protected_ids M Q D c) ≡ false
      → below da.score db.score ≡ false
  unfolding protected_ids
  protected_ids_highest c a b da db d ha hb ma fa mb =
      let flying = keys (M.entries c.flying) in
      let target = protected_target M Q D c in
      let top = drop (length c.index - target) (by_score M Q D c.index) in
      let (once, at) = by_score_lem c.index d in
      let (_, _, among_top) = extend_lem flying (keys top) (M.distinct_keys c.flying) in
      let (_, _, among) = extend_lem flying (keys c.index) (M.distinct_keys c.flying) in
      elim (Bool-cases (target == 0)) [
        | inl e ↦ ground (arith, e, ma, fa)
        | inr some_left ↦ elim (Bool-cases (ltb target (length c.index))) [
          | inl e ↦
              drop_highest (length c.index - target) a b da db (by_score M Q D c.index)
                (by_score-Ascending c.index) once (at a ∙ ha) (at b ∙ hb)
                (ground (arith, ma, some_left, e, among_top a, fa))
                (ground (arith, mb, some_left, e, among_top b))
          | inr e ↦ ground (arith, mb, some_left, e, among b, mem-keys b c.index, hb)
        ]
      ]
