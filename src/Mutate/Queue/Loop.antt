-- ===== src/Mutate/Queue/Loop.antt =====
-- The loop ends, and keeps every item.
use ast_sqlite_test.Common.{
  ℕ, zero, suc, ◌+◌, ◌-◌, ◌*◌, ◌≤◌, ◌<◌, ◌≡◌, ◌⊎◌, refl, max, Bool, false, List, [], ◌∷◌, ◌++◌,
  none, some, leb, if◌then◌else◌, length, arith, Bool-cases, Option-cases, inl, inr, length-append,
}
use ast_sqlite_test.Mutate.Strategy.{Host, World}
use ast_sqlite_test.Mutate.Queue.{ScheduledItem, cmp, pop, is_lt, is_stale, renew, take_items}

module _ (H : Host) {T : Type 0} (accept_under current_epoch : ℕ) where
  abbrev pub stale : ScheduledItem H T → Bool
  stale top = is_stale H accept_under current_epoch top

  -- How many items of the queue have a score that is too old.
  abbrev pub count_stale : List (ScheduledItem H T) → ℕ
  count_stale [] = 0
  count_stale (x ∷ xs) = let rest = count_stale xs in if stale x then suc rest else rest

  pub length_none : (queue : List (ScheduledItem H T)) → pop H queue ≡ none → queue ≡ []
  unfolding pop
  length_none [] h = refl
  length_none (x ∷ xs) h = elim (Option-cases (pop H xs)) [
    | inl gone ↦ absurd (ground (arith, h, gone))
    | inr ((best, rest'), found) ↦ absurd (ground (arith, h, found))
  ]

  pub pop_lem :
      (queue rest : List (ScheduledItem H T)) (top : ScheduledItem H T)
      → pop H queue ≡ some (top, rest)
      → (length queue ≡ suc (length rest)) × (count_stale queue ≡ count_stale (top ∷ rest))
  unfolding pop
  pop_lem [] rest top h = absurd (ground (arith, h))
  pop_lem (x ∷ xs) rest top h = elim (Option-cases (pop H xs)) [
    | inl gone ↦ ground (arith, h, gone, length_none xs gone)
    | inr ((best, rest'), found) ↦
        let (long, same) = pop_lem xs rest' best found in
        elim (Bool-cases (is_lt (cmp H x best))) [
          | inl t ↦ ground (arith, h, found, t, long, same)
          | inr f ↦ ground (arith, h, found, f, long, same)
        ]
  ]

  count_stale-append :
      (xs ys : List (ScheduledItem H T)) → count_stale (xs ++ ys) ≡ count_stale xs + count_stale ys
  count_stale-append [] ys = omega arith
  count_stale-append (x ∷ xs) ys = ground (arith, count_stale-append xs ys)

  -- What the loop took from a queue, on top of `acc`: no item is lost, no stale one is taken, and
  -- there are as many as wanted or none are left.
  pub record Taken (choose : ℕ) (queue acc acc' queue' : List (ScheduledItem H T)) : Type 0 where
    pub kept : length acc' + length queue' ≡ length acc + length queue
    pub few : length acc' ≤ max choose (length acc)
    pub fresh : count_stale acc' ≡ count_stale acc
    pub enough : (choose ≤ length acc') ⊎ (queue' ≡ [])

  pub renew_fresh :
      (top : ScheduledItem H T) (w : World H) → stale (renew H current_epoch top w).0 ≡ false
  unfolding renew
  renew_fresh top w =
      let at : max (current_epoch - current_epoch) (current_epoch - current_epoch) ≤ accept_under =
        omega arith in
      ground (arith, at)

  -- The loop ends: each item is renewed at most once, so twice as many rounds as there are items,
  -- and one more, are enough.
  take_items_total :
      (rounds choose : ℕ) (queue acc : List (ScheduledItem H T)) (w : World H)
      → length queue + count_stale queue < rounds
      → (acc' : List (ScheduledItem H T)) × (queue' : List (ScheduledItem H T)) × (w' : World H)
        × (take_items H rounds accept_under choose current_epoch queue acc w
            ≡ some (acc', queue', w'))
        × Taken choose queue acc acc' queue'
  unfolding take_items
  take_items_total zero choose queue acc w h = absurd (omega (arith, h))
  take_items_total (suc rounds) choose queue acc w h = elim (Bool-cases (leb choose (length acc))) [
    | inl full ↦ (
      acc,
      queue,
      w,
      rw (full, take_items) refl,
      record { kept = refl; few = omega arith; fresh = refl; enough = inl (ground (arith, full)) },
    )
    | inr open_ ↦ elim (Option-cases (pop H queue)) [
      | inl gone ↦ (
        acc,
        queue,
        w,
        rw (open_, take_items) (rw (gone, take_items) refl),
        record {
          kept = refl;
          few = omega arith;
          fresh = refl;
          enough = inr (length_none queue gone);
        },
      )
      | inr ((top, rest), found) ↦
          let (long, same) = pop_lem queue rest top found in
          elim (Bool-cases (stale top)) [
            | inl old ↦
                let (top', w₁) = renew H current_epoch top w in
                let new : stale top' ≡ false = renew_fresh top w in
                let (acc', queue', w', run, t) =
                  take_items_total rounds choose (top' ∷ rest) acc w₁
                    (ground (arith, h, long, same, old, new)) in
                (
                  acc',
                  queue',
                  w',
                  rw (open_, take_items) (rw (found, take_items) (rw (old, take_items) run)),
                  record {
                    kept = omega (arith, t.kept, long);
                    few = t.few;
                    fresh = t.fresh;
                    enough = t.enough;
                  },
                )
            | inr young ↦
                let (acc', queue', w', run, t) =
                  take_items_total rounds choose rest (acc ++ top ∷ []) w
                    (ground (arith, h, long, same, young)) in
                (
                  acc',
                  queue',
                  w',
                  rw (open_, take_items) (rw (found, take_items) (rw (young, take_items) run)),
                  record {
                    kept = omega (arith, t.kept, long, length-append acc (top ∷ []));
                    few = ground (arith, t.few, open_, length-append acc (top ∷ []));
                    fresh = ground (arith, t.fresh, young, count_stale-append acc (top ∷ []));
                    enough = t.enough;
                  },
                )
          ]
    ]
  ]

  pub count_stale-le : (queue : List (ScheduledItem H T)) → count_stale queue ≤ length queue
  count_stale-le [] = omega arith
  count_stale-le (x ∷ xs) = ground (arith, count_stale-le xs)

  -- For any queue, with twice as many rounds as there are items and one more, the loop ends; no item
  -- is lost, at most as many as wanted are taken, none with a score that is too old, and as many as
  -- wanted or all of them.
  pub take_items-Taken :
      (choose : ℕ) (queue : List (ScheduledItem H T)) (w : World H)
      → (acc : List (ScheduledItem H T)) × (queue' : List (ScheduledItem H T)) × (w' : World H)
        × (take_items H (2 * length queue + 1) accept_under choose current_epoch queue [] w
            ≡ some (acc, queue', w'))
        × Taken choose queue [] acc queue'
  take_items-Taken choose queue w =
      take_items_total (2 * length queue + 1) choose queue [] w
        (omega (arith, count_stale-le queue))
