-- ===== src/Engine/Fast/Owners.antt =====
-- The arms that entries report to.
use ast_sqlite_test.Common.{
  ℕ, zero, suc, ◌≡◌, refl, ap, List, [], ◌∷◌, ◌++◌, some, leb, length, get_elem?, set, arith,
  Bool-cases, inl, inr,
}
use ast_sqlite_test.Core.Entry.{EntryId, RawEntry}
use ast_sqlite_test.Feedback.Outcome.{TestableEntry, Handle}
use ast_sqlite_test.Mutate.Strategy.{Host, World}
use ast_sqlite_test.Mutate.Queue.{distance}
use ast_sqlite_test.Engine.Fast.{accept_under, Arm, freshen}

-- The ids with their arms, without the scores
abbrev pub owners : {H : Host} → List (Arm H) → List (EntryId × Handle)
owners [] = []
owners (arm ∷ arms) = (arm.id, arm.stats) ∷ owners arms

-- Each entry reports to one arm, as a rule and as a parent, which is that of its id.
abbrev pub Armed :
    {A : Type 0} → List (EntryId × Handle) → List (TestableEntry (RawEntry A)) → Type 0
Armed arms [] = Unit {0}
Armed arms (p ∷ ps) =
    ((i : ℕ) × (stats : Handle) × (get_elem? arms i ≡ some (p.entry.id, stats))
      × (p.applied_rule_stats ≡ stats ∷ [])
      × (p.parent_stats ≡ stats ∷ []))
    × Armed arms ps

pub Armed-append :
    {A : Type 0} (arms : List (EntryId × Handle)) (ps qs : List (TestableEntry (RawEntry A)))
    → Armed arms ps
    → Armed arms qs
    → Armed arms (ps ++ qs)
Armed-append arms [] qs h k = k
Armed-append arms (p ∷ ps) qs h k = (h.0, Armed-append arms ps qs h.1 k)

module _ (H : Host) where
  pub length-owners : (arms : List (Arm H)) → length (owners arms) ≡ length arms
  length-owners [] = refl
  length-owners (arm ∷ arms) = ap suc (length-owners arms)

  pub owners-at :
      (arms : List (Arm H)) (i : ℕ) (arm : Arm H)
      → get_elem? arms i ≡ some arm
      → get_elem? (owners arms) i ≡ some (arm.id, arm.stats)
  owners-at [] i arm h = absurd (ground (arith, h))
  owners-at (x ∷ arms) zero arm h = ground (arith, h)
  owners-at (x ∷ arms) (suc i) arm h = owners-at arms i arm h

  pub owners-set :
      (arms : List (Arm H)) (i : ℕ) (arm arm' : Arm H)
      → get_elem? arms i ≡ some arm
      → arm'.id ≡ arm.id
      → arm'.stats ≡ arm.stats
      → owners (set arms i arm') ≡ owners arms
  owners-set [] i arm arm' h p q = refl
  owners-set (x ∷ arms) zero arm arm' h p q = ground (arith, h, p, q)
  owners-set (x ∷ arms) (suc i) arm arm' h p q = cc (owners-set arms i arm arm' h p q)

  pub freshen_owner :
      (epoch : ℕ) (arm : Arm H) (w : World H)
      → ((freshen H epoch arm w).0.id ≡ arm.id) × ((freshen H epoch arm w).0.stats ≡ arm.stats)
  unfolding freshen
  freshen_owner epoch arm w = elim (Bool-cases (leb accept_under (distance arm.epoch epoch))) [
    | inl t ↦ rw t (refl, refl)
    | inr f ↦ rw f (refl, refl)
  ]
