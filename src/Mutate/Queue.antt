-- ===== src/Mutate/Queue.antt =====
-- crates/lsf-feedback/src/mab.rs, `SchedueldItem`, and the loop by which the heap schedulers take
-- items: the best first, and one with a score that is too old goes back with a new one. A binary
-- heap is a list, of which `pop` takes a greatest item.
pub mod Loop
use Prim.Native.Nat.{Ordering, compare}
use ast_sqlite_test.Common.{
  ℕ, zero, suc, ◌+◌, ◌-◌, max, Bool, true, false, List, [], ◌∷◌, ◌++◌, Option, none, some, ltb, leb,
  if◌then◌else◌, length,
}
use ast_sqlite_test.Feedback.Outcome.{Handle}
use ast_sqlite_test.Mutate.Strategy.{Host, World}

-- `abs_diff`
abbrev pub distance : ℕ → ℕ → ℕ
distance a b = max (a - b) (b - a)

abbrev pub is_lt : Ordering → Bool
is_lt o = elim o [ Ordering.lt ↦ true | _ ↦ false ]

pub record ScheduledItem (H : Host) (T : Type 0) : Type 0 where
  pub score : H.F64
  pub epoch : ℕ
  pub stats : Handle
  pub item : T

module _ (H : Host) {T : Type 0} where
  -- `SchedueldItem::new`
  unfoldable pub new_item : T → World H → ScheduledItem H T × World H
  new_item item w =
      let (heap, stats) = H.new_arm w.heap in
      let (heap', score) = H.calculate_score stats heap in
      (
        record { score = score; epoch = H.epoch w.heap; stats = stats; item = item },
        record w { heap = heap' },
      )

  -- Older items are recalculated first where the scores cannot be compared.
  unfoldable pub cmp : ScheduledItem H T → ScheduledItem H T → Ordering
  cmp a b = elim (H.partial_cmp a.score b.score) [ none ↦ compare b.epoch a.epoch | some o ↦ o ]

  unfoldable pub pop :
      List (ScheduledItem H T) → Option (ScheduledItem H T × List (ScheduledItem H T))
  pop [] = none
  pop (x ∷ xs) = elim (pop xs) [
    | none ↦ some (x, [])
    | some (best, rest) ↦ if is_lt (cmp x best) then some (best, x ∷ rest) else some (x, xs)
  ]

  abbrev pub is_stale : ℕ → ℕ → ScheduledItem H T → Bool
  is_stale accept_under current_epoch top = ltb accept_under (distance top.epoch current_epoch)

  unfoldable pub renew : ℕ → ScheduledItem H T → World H → ScheduledItem H T × World H
  renew current_epoch top w =
      let (heap, score) = H.calculate_score top.stats w.heap in
      (record top { score = score; epoch = current_epoch }, record w { heap = heap })

  -- The items that the loop took, and the queue without them; `none` where the rounds run out.
  unfoldable pub take_items :
      ℕ
      → ℕ
      → ℕ
      → ℕ
      → List (ScheduledItem H T)
      → List (ScheduledItem H T)
      → World H
      → Option (List (ScheduledItem H T) × List (ScheduledItem H T) × World H)
  take_items zero accept_under choose current_epoch queue acc w = none
  take_items (suc rounds) accept_under choose current_epoch queue acc w =
      elim (leb choose (length acc)) [
        | true ↦ some (acc, queue, w)
        | false ↦ elim (pop queue) [
          | none ↦ some (acc, queue, w)
          | some (top, rest) ↦ elim (is_stale accept_under current_epoch top) [
            | true ↦
                let (top', w') = renew current_epoch top w in
                take_items rounds accept_under choose current_epoch (top' ∷ rest) acc w'
            | false ↦ take_items rounds accept_under choose current_epoch rest (acc ++ top ∷ []) w
          ]
        ]
      ]
