-- ===== src/Engine/Heap/Once.antt =====
-- A batch hands out no entry twice, and loses none that the corpus has.
use ast_sqlite_test.Common.{
  ℕ, zero, suc, ◌+◌, ◌*◌, ◌≤◌, ◌<◌, ◌≡◌, ◌⊎◌, refl, sym, ◌∙◌, ap, max, Bool, true, none, ℕ_discrete,
  false, List, [], ◌∷◌, ◌++◌, Option, some, leb, length, arith, Bool-cases, Option-cases, inl, inr,
  length-append,
}
use ast_sqlite_test.Core.Entry.{EntryId, RawEntry, CorpusEntry}
use ast_sqlite_test.Feedback.Outcome.{TestableEntry, Handle, attach_build_hook}
use ast_sqlite_test.Feedback.Outcome as Outcome
use ast_sqlite_test.Mutate.Strategy.{Host, World}
use ast_sqlite_test.Mutate.Queue.{pop, is_stale, renew}
use ast_sqlite_test.Mutate.Queue.Loop.{
  count_stale, length_none, pop_lem, renew_fresh, count_stale-le,
}
use ast_sqlite_test.Engine.Heap.Items.{
  occurs, occurs-append, items, items-append, pop_occurs, ids_of, ids_of-append,
}
use ast_sqlite_test.Engine.Heap.{
  accept_under, Target, Gathered, take_parent, gather, start, next_batch,
}

module _ (H : Host) {A C : Type 0} (get : EntryId → C → C × Option (CorpusEntry A))
    (update : EntryId → H.F64 → C → C)
    (own_id : (id : EntryId) (c : C) (e : CorpusEntry A) → (get id c).1 ≡ some e → e.raw.id ≡ id)
    (has : EntryId → C → Bool)
    (get_misses : (id : EntryId) (c : C) → (get id c).1 ≡ none → has id c ≡ false)
    (get_keeps : (id j : EntryId) (c : C) → has j (get id c).0 ≡ has j c)
    (update_keeps : (id j : EntryId) (score : H.F64) (c : C)
      → has j (update id score c) ≡ has j c) where
  abbrev State : Type 0
  State = Gathered H A C

  -- The parents are the entries of the items that were taken.
  abbrev Matched : State → Type 0
  Matched g = ids_of g.parents ≡ items H g.acc

  take_parent-Matched :
      (top : Target H) (g : State) → Matched g → Matched (take_parent H get update top g)
  unfolding take_parent attach_build_hook Outcome.new
  take_parent-Matched top g m = elim (Option-cases (get top.item g.corpus).1) [
    | inl gone ↦ rw (gone, take_parent) m
    | inr (e, found) ↦
        let own = own_id top.item g.corpus e found in
        rw (found, take_parent)
          (ids_of-append g.parents (attach_build_hook top.stats (Outcome.new e.raw) ∷ [])
            ∙ rw (m, own) (sym (items-append H g.acc (top ∷ []))))
  ]

  renewed :
      (top : Target H) (w : World H) (epoch : ℕ) (id : EntryId) (rest : List (Target H))
      → occurs id (items H ((renew H epoch top w).0 ∷ rest)) ≡ occurs id (items H (top ∷ rest))
  unfolding renew
  renewed top w epoch id rest = refl

  take_parent_lem :
      (top : Target H) (g : State) (g₁ : State)
      → g₁ ≡ take_parent H get update top g
      → (g₁.queue ≡ g.queue)
        × ((id : EntryId)
            → occurs id (items H g₁.acc) ≤ occurs id (items H g.acc) + occurs id (top.item ∷ []))
        × (length g₁.parents ≤ suc (length g.parents))
        × ((id : EntryId)
            → (has id g₁.corpus ≡ has id g.corpus)
              × (has id g.corpus ≡ true
                  → occurs id (items H g₁.acc)
                    ≡ occurs id (items H g.acc) + occurs id (top.item ∷ [])))
  unfolding take_parent
  take_parent_lem top g g₁ here = elim (Option-cases (get top.item g.corpus).1) [
    | inl gone ↦
        let none_there = get_misses top.item g.corpus gone in
        (
          ground (arith, here, gone),
          λ id. ground (arith, here, gone),
          ground (arith, here, gone),
          λ id. (
            ground (arith, here, gone, get_keeps top.item id g.corpus),
            λ there. elim (ℕ_discrete top.item id) [
              | yes e ↦ absurd (ground (arith, e, none_there, there))
              | no ne ↦ ground (arith, here, gone, ne)
            ],
          ),
        )
    | inr (e, found) ↦
        let parent = attach_build_hook top.stats (Outcome.new e.raw) ∷ [] in
        (
          ground (arith, here, found),
          λ id. ground (
            arith,
            here,
            found,
            items-append H g.acc (top ∷ []),
            occurs-append id (items H g.acc) (top.item ∷ []),
          ),
          ground (arith, here, found, length-append g.parents parent),
          λ id. (
            ground (
              arith,
              here,
              found,
              get_keeps top.item id g.corpus,
              update_keeps top.item id top.score (get top.item g.corpus).0,
            ),
            λ there. ground (
              arith,
              here,
              found,
              items-append H g.acc (top ∷ []),
              occurs-append id (items H g.acc) (top.item ∷ []),
            ),
          ),
        )
  ]

  -- What the loop made of a state
  record Gathering (size : ℕ) (g g' : State) : Type 0 where
    once :
        (id : EntryId)
        → occurs id (items H g'.acc) + occurs id (items H g'.queue)
          ≤ occurs id (items H g.acc) + occurs id (items H g.queue)
    kept :
        (id : EntryId)
        → has id g.corpus ≡ true
        → occurs id (items H g'.acc) + occurs id (items H g'.queue)
          ≡ occurs id (items H g.acc) + occurs id (items H g.queue)
    matched : Matched g'
    few : length g'.parents ≤ max size (length g.parents)
    enough : (size ≤ length g'.parents) ⊎ (g'.queue ≡ [])

  gather_total :
      (rounds size epoch : ℕ) (g : State)
      → length g.queue + count_stale H accept_under epoch g.queue < rounds
      → Matched g
      → (g' : State) × (gather H get update rounds size epoch g ≡ some g') × Gathering size g g'
  unfolding gather
  gather_total zero size epoch g h m = absurd (omega (arith, h))
  gather_total (suc rounds) size epoch g h m = elim (Bool-cases (leb size (length g.parents))) [
    | inl full ↦ (
      g,
      rw (full, gather) refl,
      record {
        once = λ id. omega arith;
        kept = λ id there. refl;
        matched = m;
        few = omega arith;
        enough = inl (ground (arith, full));
      },
    )
    | inr more ↦ elim (Option-cases (pop H g.queue)) [
      | inl gone ↦ (
        g,
        rw (more, gather) (rw (gone, gather) refl),
        record {
          once = λ id. omega arith;
          kept = λ id there. refl;
          matched = m;
          few = omega arith;
          enough = inr (length_none H accept_under epoch g.queue gone);
        },
      )
      | inr ((top, rest), found) ↦
          let (long, same) = pop_lem H accept_under epoch g.queue rest top found in
          elim (Bool-cases (is_stale H accept_under epoch top)) [
            | inl old ↦
                let (top', w) = renew H epoch top g.world in
                let new : is_stale H accept_under epoch top' ≡ false =
                  renew_fresh H accept_under epoch top g.world in
                let g₁ : State = record g { queue = top' ∷ rest; world = w } in
                let (g', run, t) =
                  gather_total rounds size epoch g₁ (ground (arith, h, long, same, old, new)) m in
                (
                  g',
                  rw (more, gather) (rw (found, gather) (rw (old, gather) run)),
                  record {
                    once = λ id. omega (
                      arith,
                      t.once id,
                      pop_occurs H id g.queue rest top found,
                      renewed top g.world epoch id rest,
                    );
                    kept = λ id there. omega (
                      arith,
                      t.kept id there,
                      pop_occurs H id g.queue rest top found,
                      renewed top g.world epoch id rest,
                    );
                    matched = t.matched;
                    few = t.few;
                    enough = t.enough;
                  },
                )
            | inr young ↦
                let g₀ : State = record g { queue = rest } in
                let g₁ = take_parent H get update top g₀ in
                let (left, taken, long₁, stay) = take_parent_lem top g₀ g₁ refl in
                let (g', run, t) =
                  gather_total rounds size epoch g₁ (ground (arith, h, long, same, young, left))
                    (take_parent-Matched top g₀ m) in
                (
                  g',
                  rw (more, gather) (rw (found, gather) (rw (young, gather) run)),
                  record {
                    once = λ id.
                        ground (
                          arith,
                          t.once id,
                          pop_occurs H id g.queue rest top found,
                          left,
                          taken id,
                        );
                    kept = λ id there. ground (
                      arith,
                      t.kept id ((stay id).0 ∙ there),
                      pop_occurs H id g.queue rest top found,
                      left,
                      (stay id).1 there,
                    );
                    matched = t.matched;
                    few = ground (arith, t.few, long₁, more);
                    enough = t.enough;
                  },
                )
          ]
    ]
  ]

  -- Over a corpus that answers an id with an entry of that id, has what it does not answer with
  -- nothing, and has the same entries after a look-up and after an update, `next_batch` ends; it hands
  -- out at most as many entries as wanted, and each at most as often as it stands in the queue; the
  -- queue that is left holds no entry more often than before, and each that the corpus has as often
  -- as before; and where fewer than wanted are handed out, the queue that is left is what was handed
  -- out, so each entry of the queue that the corpus has was handed out as often as it stood there.
  pub next_batch_once :
      (size : ℕ) (queue : List (Target H)) (corpus : C) (w : World H)
      → (parents : List (TestableEntry (RawEntry A))) × (queue' : List (Target H)) × (corpus' : C)
        × (w' : World H) × (next_batch H get update size queue corpus w
            ≡ some (parents, queue', corpus', w'))
        × (length parents ≤ size)
        × ((id : EntryId)
            → (occurs id (ids_of parents) ≤ occurs id (items H queue))
              × (occurs id (items H queue') ≤ occurs id (items H queue))
              × (has id corpus ≡ true → occurs id (items H queue') ≡ occurs id (items H queue)))
        × ((size ≤ length parents)
            ⊎ ((items H queue' ≡ ids_of parents)
                × ((id : EntryId)
                    → has id corpus ≡ true
                    → occurs id (ids_of parents) ≡ occurs id (items H queue))))
  unfolding next_batch
  next_batch_once size queue corpus w =
      let begun : State = start H get update queue corpus w in
      let (g, run, t) =
        gather_total (2 * length queue + 1) size (H.epoch w.heap) begun
          (omega (arith, count_stale-le H accept_under (H.epoch w.heap) queue)) refl in
      (
        g.parents,
        g.queue ++ g.acc,
        g.corpus,
        g.world,
        rw (run, next_batch) refl,
        omega (arith, t.few),
        λ id. (
          omega (arith, t.once id, ap (occurs id) t.matched),
          omega (
            arith,
            t.once id,
            ap (occurs id) (items-append H g.queue g.acc),
            occurs-append id (items H g.queue) (items H g.acc),
          ),
          λ there. omega (
            arith,
            t.kept id there,
            ap (occurs id) (items-append H g.queue g.acc),
            occurs-append id (items H g.queue) (items H g.acc),
          ),
        ),
        elim t.enough [
          | inl full ↦ inl full
          | inr none_left ↦ inr (
            rw none_left (sym t.matched),
            λ id there. omega (
              arith,
              t.kept id there,
              ap (occurs id) t.matched,
              ap (λ q. occurs id (items H q)) none_left,
            ),
          )
        ],
      )
