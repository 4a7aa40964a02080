-- ===== src/Feedback/Arm/Hooks.antt =====
-- Which arms a result is reported to.
use ast_sqlite_test.Common.{
  ℕ, zero, suc, ◌≡◌, refl, List, [], ◌∷◌, Option, none, some, ◌==◌, if◌then◌else◌, get_elem?, set,
  Bool-cases, inl, inr, arith, option_map, ℕ_discrete, ◌∙◌, ap, Option-cases, ◌≢◌, sym,
}
use ast_sqlite_test.Core.Entry.{Meta}
use ast_sqlite_test.Feedback.Floats.{Floats}
use ast_sqlite_test.Feedback.Outcome.{TestOutcome, TestableEntry}
use ast_sqlite_test.Feedback.Arm.{
  Constants, MabBody, MabArm, on_exec, on_exec_at, on_exec_all, fire_rule_hooks,
}

abbrev pub count : ℕ → List ℕ → ℕ
count x [] = 0
count x (y ∷ ys) = let rest = count x ys in if y == x then suc rest else rest

abbrev pub times {ℓ} : {A : Type ℓ} → ℕ → (A → A) → A → A
times zero f a = a
times (suc n) f a = times n f (f a)

get_elem?-set_self :
    {A : Type 0} (xs : List A) (i : ℕ) (v a : A)
    → get_elem? xs i ≡ some a
    → get_elem? (set xs i v) i ≡ some v
get_elem?-set_self [] i v a h = absurd (ground (arith, h))
get_elem?-set_self (x ∷ xs) zero v a h = refl
get_elem?-set_self (x ∷ xs) (suc i) v a h = get_elem?-set_self xs i v a h

get_elem?-set_ne :
    {A : Type 0} (xs : List A) (i j : ℕ) (v : A) → i ≢ j → get_elem? (set xs i v) j ≡ get_elem? xs j
get_elem?-set_ne [] i j v h = refl
get_elem?-set_ne (x ∷ xs) zero zero v h = absurd (h refl)
get_elem?-set_ne (x ∷ xs) zero (suc j) v h = refl
get_elem?-set_ne (x ∷ xs) (suc i) zero v h = refl
get_elem?-set_ne (x ∷ xs) (suc i) (suc j) v h = get_elem?-set_ne xs i j v (λ e. h (ap suc e))

option_map_id : {A : Type 0} (o : Option A) → option_map (λ a. a) o ≡ o
option_map_id none = refl
option_map_id (some a) = refl

option_map_map :
    {A : Type 0} (f g : A → A) (o : Option A)
    → option_map g (option_map f o) ≡ option_map (λ a. g (f a)) o
option_map_map f g none = refl
option_map_map f g (some a) = refl

module _ (F : Floats) (k : Constants F) (ctx : ℕ → MabBody F) (outcome : TestOutcome)
    (meta : Meta) where
  report_at :
      (hook j : ℕ) (arms : List (MabArm F))
      → get_elem? (on_exec_at F k ctx outcome meta hook arms) j ≡ (
          if hook == j
          then option_map (on_exec F k (ctx hook) outcome meta) (get_elem? arms j)
          else get_elem? arms j)
  unfolding on_exec_at
  report_at hook j arms = elim (Option-cases (get_elem? arms hook)) [
    | inl gone ↦
        rw (gone, on_exec_at)
          (elim (ℕ_discrete hook j) [ yes p ↦ ground (arith, p, gone) | no p ↦ ground arith ])
    | inr (a, found) ↦
        rw (found, on_exec_at)
          (elim (ℕ_discrete hook j) [
            | yes p ↦ ground (
              arith,
              p,
              found,
              get_elem?-set_self arms hook (on_exec F k (ctx hook) outcome meta a) a found,
            )
            | no p ↦
                ground
                  (arith, p, get_elem?-set_ne arms hook j (on_exec F k (ctx hook) outcome meta a) p)
          ])
  ]

  report_all :
      (hooks : List ℕ) (j : ℕ) (arms : List (MabArm F))
      → get_elem? (on_exec_all F k ctx outcome meta hooks arms) j
        ≡ option_map (times (count j hooks) (on_exec F k (ctx j) outcome meta)) (get_elem? arms j)
  unfolding on_exec_all
  report_all [] j arms = sym (option_map_id (get_elem? arms j))
  report_all (hook ∷ hooks) j arms =
      let f = on_exec F k (ctx j) outcome meta in
      report_all hooks j (on_exec_at F k ctx outcome meta hook arms)
      ∙ ap (option_map (times (count j hooks) f)) (report_at hook j arms)
      ∙ elim (Bool-cases (hook == j)) [
        | inl e ↦
            let here : hook ≡ j = ground (arith, e) in
            rw e (
              ap
                (λ i.
                  option_map (times (count j hooks) f)
                    (option_map (on_exec F k (ctx i) outcome meta) (get_elem? arms j)))
                here
              ∙ option_map_map f (times (count j hooks) f) (get_elem? arms j))
        | inr ne ↦ rw ne refl
      ]

  -- Firing the hooks of an entry reports the result to every arm as many times as the arm
  -- stands among the entry's hooks, at the inflation of that arm's own body, and to no other arm, and leaves the entry without hooks, so
  -- that firing again reports nothing.
  pub fire_rule_hooks_reports :
      {T : Type 0} (e : TestableEntry T) (arms : List (MabArm F))
      → ((j : ℕ)
          → get_elem? (fire_rule_hooks F k ctx outcome meta e arms).1 j
            ≡ option_map
                (times (count j e.applied_rule_stats) (on_exec F k (ctx j) outcome meta))
                (get_elem? arms j))
        × (fire_rule_hooks F k ctx outcome meta
              (fire_rule_hooks F k ctx outcome meta e arms).0
              (fire_rule_hooks F k ctx outcome meta e arms).1
            ≡ fire_rule_hooks F k ctx outcome meta e arms)
  unfolding fire_rule_hooks on_exec_all
  fire_rule_hooks_reports e arms = (λ j. report_all e.applied_rule_stats j arms, refl)
