-- ===== src/Engine/Fast/Rounds.antt =====
-- What the rounds of a batch keep.
use ast_sqlite_test.Common.{
  Bool, if◌then◌else◌, ℕ, zero, suc, ◌≡◌, ◌≤◌, ◌<◌, refl, ◌∙◌, ap, max, true, List, [], ◌∷◌, ◌++◌,
  Option, some, leb, ltb, length, get_elem?, set, arith, Bool-cases, Option-cases, inl, inr,
  length-append,
}
use ast_sqlite_test.Core.Entry.{EntryId, RawEntry, CorpusEntry}
use ast_sqlite_test.Feedback.Outcome.{TestableEntry, Handle, attach_hook, attach_build_hook}
use ast_sqlite_test.Feedback.Outcome as Outcome
use ast_sqlite_test.Mutate.Strategy.{Host, World, draw, flip}
use ast_sqlite_test.Mutate.Queue.{distance}
use ast_sqlite_test.Engine.Fast.{accept_under, Arm, freshen, Drawn, accept, draw_at, next_batch}
use ast_sqlite_test.Engine.Fast.Owners.{
  owners, Armed, Armed-append, length-owners, owners-at, owners-set, freshen_owner,
}

module _ (H : Host) where
  module _ {A C : Type 0} (get : EntryId → C → C × Option (CorpusEntry A)) (max_weight : H.F64)
      (is_chance : H.F64 → Bool)
      (own : (id : EntryId) (c : C) (e : CorpusEntry A) → (get id c).1 ≡ some e → e.raw.id ≡ id)
      (scored : (stats : Handle) (heap : H.Heap)
        → is_chance (H.div (H.calculate_score stats heap).1 max_weight) ≡ true) where
    abbrev State : Type 0
    State = Drawn H get max_weight is_chance

    -- The score of an arm is a chance of the greatest one.
    abbrev Fair : Arm H → Type 0
    Fair arm = is_chance (H.div arm.item max_weight) ≡ true

    abbrev pub AllFair : List (Arm H) → Type 0
    AllFair [] = Unit {0}
    AllFair (arm ∷ arms) = Fair arm × AllFair arms

    AllFair-at :
        (arms : List (Arm H)) (i : ℕ) (arm : Arm H)
        → get_elem? arms i ≡ some arm
        → AllFair arms
        → Fair arm
    AllFair-at [] i arm h f = absurd (ground (arith, h))
    AllFair-at (x ∷ arms) zero arm h f = let same : x ≡ arm = ground (arith, h) in rw (← same) (f.0)
    AllFair-at (x ∷ arms) (suc i) arm h f = AllFair-at arms i arm h f.1

    AllFair-set :
        (arms : List (Arm H)) (i : ℕ) (arm : Arm H)
        → Fair arm
        → AllFair arms
        → AllFair (set arms i arm)
    AllFair-set [] i arm h f = tt
    AllFair-set (x ∷ arms) zero arm h f = (h, f.1)
    AllFair-set (x ∷ arms) (suc i) arm h f = (f.0, AllFair-set arms i arm h f.1)

    freshen-Fair :
        (epoch : ℕ) (arm : Arm H) (w : World H) → Fair arm → Fair (freshen H epoch arm w).0
    unfolding freshen
    freshen-Fair epoch arm w f = elim (Bool-cases (leb accept_under (distance arm.epoch epoch))) [
      | inl t ↦ rw t (scored arm.stats w.heap)
      | inr n ↦ rw n f
    ]

    -- What a draw keeps
    record Kept (d d' : State) : Type 0 where
      same : owners d'.arms ≡ owners d.arms
      few : length d'.generation ≤ suc (length d.generation)
      armed : Armed (owners d.arms) d.generation → Armed (owners d.arms) d'.generation
      fair : AllFair d'.arms

    same_arms_lem :
        (d d' : State)
        → d'.arms ≡ d.arms
        → d'.generation ≡ d.generation
        → AllFair d.arms
        → Kept d d'
    same_arms_lem d d' a g f = record {
      same = ap owners a;
      few = ground (arith, g);
      armed = λ k. rw g k;
      fair = rw a f;
    }

    accept-Kept :
        (epoch i : ℕ) (arm : Arm H) (entry : RawEntry A) (d : State)
        → get_elem? d.arms i ≡ some arm
        → entry.id ≡ arm.id
        → AllFair d.arms
        → (d' : State) × (accept H get max_weight is_chance epoch i arm entry d ≡ some d')
          × Kept d d'
    unfolding accept attach_build_hook attach_hook Outcome.new
    accept-Kept epoch i arm entry d at named fair =
        let (arm', w) = freshen H epoch arm d.world in
        let (p, q) = freshen_owner H epoch arm d.world in
        let here = owners-at H d.arms i arm at in
        let chance : Fair arm' = freshen-Fair epoch arm d.world (AllFair-at d.arms i arm at fair) in
        let told = attach_build_hook arm.stats (attach_hook arm.stats (Outcome.new entry)) in
        let (hit, w') = flip H (H.div arm'.item max_weight) w in
        let d' : State = record d {
          arms = set d.arms i arm';
          generation = if hit then d.generation ++ told ∷ [] else d.generation;
          world = w';
        } in
        let fair' = AllFair-set d.arms i arm' chance fair in
        (
          d',
          rw (chance, accept) refl,
          elim (Bool-cases hit) [
            | inr miss ↦ record {
              same = owners-set H d.arms i arm arm' at p q;
              few = rw miss (omega arith);
              armed = λ k. rw miss k;
              fair = fair';
            }
            | inl hits ↦ record {
              same = owners-set H d.arms i arm arm' at p q;
              few = rw hits (omega (arith, length-append d.generation (told ∷ [])));
              armed = λ k. rw hits (
                  Armed-append (owners d.arms) d.generation _ k
                    ((i, arm.stats, rw named here, refl, refl), tt));
              fair = fair';
            }
          ],
        )

    draw_at-Kept :
        (epoch i : ℕ) (d : State)
        → AllFair d.arms
        → (d' : State) × (draw_at H get max_weight is_chance epoch i d ≡ some d') × Kept d d'
    unfolding draw_at
    draw_at-Kept epoch i d fair = elim (Option-cases (get_elem? d.arms i)) [
      | inl gone ↦ (d, rw (gone, draw_at) refl, same_arms_lem d d refl refl fair)
      | inr (arm, at) ↦
          let d₁ : State = record d { corpus = (get arm.id d.corpus).0 } in
          elim (Option-cases (get arm.id d.corpus).1) [
            | inl gone ↦
                (d₁, rw (at, draw_at) (rw (gone, draw_at) refl), same_arms_lem d d₁ refl refl fair)
            | inr (entry, found) ↦
                let (d', run, k) =
                  accept-Kept epoch i arm entry.raw d₁ at (own arm.id d.corpus entry found) fair in
                (
                  d',
                  rw (at, draw_at) (rw (found, draw_at) run),
                  record { same = k.same; few = k.few; armed = k.armed; fair = k.fair },
                )
          ]
    ]

    rounds_total :
        (rounds size epoch : ℕ) (d : State)
        → 0 < length d.arms
        → Armed (owners d.arms) d.generation
        → AllFair d.arms
        → (d' : State) × (next_batch H get max_weight is_chance rounds size epoch d ≡ some d')
          × (owners d'.arms ≡ owners d.arms)
          × (length d'.generation ≤ max size (length d.generation))
          × Armed (owners d.arms) d'.generation
          × AllFair d'.arms
    unfolding next_batch draw
    rounds_total zero size epoch d h k fair = (d, refl, refl, omega arith, k, fair)
    rounds_total (suc rounds) size epoch d h k fair =
        elim (Bool-cases (leb size (length d.generation))) [
          | inl full ↦ (d, rw (full, next_batch) refl, refl, omega arith, k, fair)
          | inr more ↦
              let (i, rng) = H.random_range 0 (length d.arms) d.world.rng in
              let d₁ : State = record d { world = record (d.world) { rng = rng } } in
              let (d₂, moved, kept) = draw_at-Kept epoch i d₁ fair in
              let some_arms : ltb 0 (length d.arms) ≡ true = ground (arith, h) in
              let (d', run, same, few, armed, fair') =
                rounds_total rounds size epoch d₂
                  (omega (
                    arith,
                    h,
                    ap length kept.same,
                    length-owners H d₂.arms,
                    length-owners H d.arms,
                  ))
                  (rw kept.same (kept.armed k)) kept.fair in
              (
                d',
                rw (more, next_batch) (rw (some_arms, next_batch) (rw (moved, next_batch) run)),
                same ∙ kept.same,
                ground (arith, few, kept.few, more),
                rw (← kept.same) armed,
                fair',
              )
        ]

    -- With at least one entry, over a corpus that answers an id with the entry of that id, where every
    -- score that is kept or calculated is a chance of the greatest weight, and in any number of rounds:
    -- the batch does not panic and is at most as long as wanted, the ids and their arms are what
    -- they were, and each entry of the batch reports, as a rule and as a parent, to the one arm of
    -- its id; and the scores that are kept are chances still.
    pub next_batch-Armed :
        (rounds size epoch : ℕ) (arms : List (Arm H)) (corpus : C) (w : World H)
        → 0 < length arms
        → AllFair arms
        → (d : Drawn H get max_weight is_chance) × (next_batch H get max_weight is_chance rounds
              size epoch
              (record { arms = arms; generation = []; corpus = corpus; world = w })
            ≡ some d)
          × (owners d.arms ≡ owners arms)
          × (length d.generation ≤ size)
          × Armed (owners arms) d.generation
          × AllFair d.arms
    next_batch-Armed rounds size epoch arms corpus w h fair =
        let begun : State = record { arms = arms; generation = []; corpus = corpus; world = w } in
        let (d, run, same, few, armed, fair') = rounds_total rounds size epoch begun h tt fair in
        (d, run, same, omega (arith, few), armed, fair')
