-- ===== src/Engine/Diversity/Window.antt =====
-- The window: bounded, in step with its ids, and spread out.
use ast_sqlite_test.Common.{
  ℕ, ◌-◌, ◌≤◌, ◌≡◌, refl, Bool, true, false, List, [], ◌∷◌, ◌++◌, ltb, leb, length, any, all,
  length-append, arith, Bool-cases, inl, inr,
}
use ast_sqlite_test.Core.Entry.{EntryId}
use ast_sqlite_test.Engine.Diversity.{
  DiversityEscape, hamming_distance, pop_front, try_insert_hash, max_diversity_window, min_dist,
}

abbrev pub far : ℕ → ℕ → Bool
far h h' = leb min_dist (hamming_distance h h')

-- Every hash is far from each that came after it.
abbrev pub Spread : List ℕ → Type 0
Spread [] = Unit {0}
Spread (h ∷ hs) = (all (far h) hs ≡ true) × Spread hs

pub record IsValid (d : DiversityEscape) : Type 0 where
  pub in_step : length d.hashes ≡ length d.entries
  pub bounded : length d.hashes ≤ max_diversity_window
  pub spread : Spread d.hashes

all_far_snoc :
    (h h' : ℕ) (hs : List ℕ)
    → all (far h) hs ≡ true
    → far h h' ≡ true
    → all (far h) (hs ++ h' ∷ []) ≡ true
all_far_snoc h h' [] a f = ground arith
all_far_snoc h h' (x ∷ hs) a f = ground (arith, all_far_snoc h h' hs)

Spread-snoc :
    (hs : List ℕ) (h' : ℕ)
    → Spread hs
    → any (λ h. ltb (hamming_distance h h') min_dist) hs ≡ false
    → Spread (hs ++ h' ∷ [])
Spread-snoc [] h' s a = (refl, tt)
Spread-snoc (h ∷ hs) h' s a =
    (all_far_snoc h h' hs s.0 (ground arith), Spread-snoc hs h' s.1 (ground arith))

Spread-pop : (hs : List ℕ) → Spread hs → Spread (pop_front hs)
unfolding pop_front
Spread-pop [] s = s
Spread-pop (h ∷ hs) s = s.1

any_pop : (p : ℕ → Bool) (hs : List ℕ) → any p hs ≡ false → any p (pop_front hs) ≡ false
unfolding pop_front
any_pop p [] a = a
any_pop p (h ∷ hs) a = ground arith

length-pop_front {ℓ} : {A : Type ℓ} (xs : List A) → length (pop_front xs) ≡ length xs - 1
unfolding pop_front
length-pop_front [] = omega arith
length-pop_front (x ∷ xs) = omega arith

-- The window never holds more than 2048 hashes, holds one id for each, and any two hashes in
-- it are at least 20 bits apart.
pub try_insert_hash-IsValid :
    (d : DiversityEscape) (id : EntryId) (h : ℕ) → IsValid d → IsValid (try_insert_hash d id h).0
unfolding try_insert_hash
try_insert_hash-IsValid d id h v =
    elim (Bool-cases (any (λ h'. ltb (hamming_distance h' h) min_dist) d.hashes)) [
      | inl similar ↦ rw similar v
      | inr apart ↦ rw apart (elim (Bool-cases (leb max_diversity_window (length d.hashes))) [
        | inl full ↦ rw full (record {
          in_step = omega (
            arith,
            length-append (pop_front d.hashes) (h ∷ []),
            length-append (pop_front d.entries) (id ∷ []),
            length-pop_front {0} d.hashes,
            length-pop_front {0} d.entries,
            v.in_step,
          );
          bounded = ground (
            arith,
            length-append (pop_front d.hashes) (h ∷ []),
            length-pop_front d.hashes,
            v.bounded,
          );
          spread =
              Spread-snoc (pop_front d.hashes) h (Spread-pop d.hashes v.spread)
                (any_pop _ d.hashes apart);
        })
        | inr room ↦ rw room (record {
          in_step = omega (
            arith,
            length-append d.hashes (h ∷ []),
            length-append d.entries (id ∷ []),
            v.in_step,
          );
          bounded = ground (arith, length-append d.hashes (h ∷ []));
          spread = Spread-snoc d.hashes h v.spread apart;
        })
      ])
    ]

-- An entry that is too close to one in the window is turned away and leaves it as it was.
pub try_insert_hash_similar :
    (d d' : DiversityEscape) (id : EntryId) (h : ℕ) → try_insert_hash d id h ≡ (d', false) → d' ≡ d
unfolding try_insert_hash
try_insert_hash_similar d d' id h e = ground arith
