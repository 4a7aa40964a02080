-- ===== src/Engine/SumTable/Table.antt =====
-- What each operation of the table does.
use ast_sqlite_test.Common.{
  ℕ, ◌<◌, ◌≡◌, refl, sym, ap, ◌∙◌, true, false, List, [], ◌∷◌, some, subst, length, get_or, arith,
  ℕ_discrete,
}
use ast_sqlite_test.Common.Assoc.{mem, distinct}
use ast_sqlite_test.Feedback.Floats.{Floats}
use ast_sqlite_test.Engine.SumTable.{nothing, BlockSumTable, push, insert, update, remove}
use ast_sqlite_test.Engine.SumTable.Weights.{IsValid, Changed, set_weight-IsValid, push-IsValid}

distinct_cons :
    (x : ℕ) (xs : List ℕ) → mem x xs ≡ false → distinct xs ≡ true → distinct (x ∷ xs) ≡ true
distinct_cons x xs m d = rw m d

module _ (F : Floats) (low high : F.F64) where
  -- The slot that the next weight gets, the weight that it gets there, and the slots free after it
  -- where these are free before
  abbrev pub next_slot : List ℕ → BlockSumTable F → ℕ
  next_slot [] t = length t.leaves
  next_slot (slot ∷ slots) t = slot

  abbrev pub next_weight : List ℕ → F.F64 → F.F64
  next_weight [] weight = F.clamp low high weight
  next_weight (slot ∷ slots) weight = weight

  abbrev pub next_free : List ℕ → List ℕ
  next_free [] = []
  next_free (slot ∷ slots) = slots

  -- An insert takes the last slot that was freed, or adds one.
  abbrev pub Inserted : List ℕ → F.F64 → BlockSumTable F → BlockSumTable F → Type 0
  Inserted slots weight t t' =
      (insert F low high weight t ≡ some (t', next_slot slots t))
      × IsValid F t'
      × Changed F (next_slot slots t) (next_weight slots weight) (nothing F) t t'
      × (t'.free_slots ≡ next_free slots)

  insert_run :
      (weight : F.F64) (t : BlockSumTable F)
      → IsValid F t
      → (slots : List ℕ) → t.free_slots ≡ slots
      → (t' : BlockSumTable F) × Inserted slots weight t t'
  unfolding insert push
  insert_run weight t v [] e =
      let (t', run, valid, c, same) = push-IsValid F (F.clamp low high weight) t v in
      (t', (rw (e, insert) (rw (run, push) refl), valid, c, same ∙ e))
  insert_run weight t v (slot ∷ slots) e =
      let d : distinct (slot ∷ slots) ≡ true = subst (λ xs. distinct xs ≡ true) e v.freed_once in
      let (here, empty) = v.free slot (rw e (ground arith)) in
      let t₁ : BlockSumTable F = record t { free_slots = slots } in
      let v₁ : IsValid F t₁ = record {
        sized = v.sized;
        covered = v.covered;
        filled = v.filled;
        free = λ i m. v.free i (rw e (ground (arith, m)));
        freed_once = ground (arith, d);
      } in
      let (t', run, valid, c, same) =
        set_weight-IsValid F slot weight t₁ v₁ here (λ i m p. ground (arith, d, m, p)) in
      let c' : Changed F slot weight (nothing F) t t' =
        subst (λ old. Changed F slot weight old t t') empty
          (record {
            size = c.size;
            leaf = c.leaf;
            leaves_kept = c.leaves_kept;
            own_block = c.own_block;
            blocks_kept = c.blocks_kept;
            total = c.total;
            same_size = c.same_size;
            same_requests = c.same_requests;
            same_fall_through = c.same_fall_through;
          }) in
      (t', (rw (e, insert) (rw (run, insert) refl), valid, c', same))

  pub insert-IsValid :
      (weight : F.F64) (t : BlockSumTable F)
      → IsValid F t
      → (t' : BlockSumTable F) × Inserted t.free_slots weight t t'
  insert-IsValid weight t v = insert_run weight t v t.free_slots refl

  -- A removal empties the slot and puts it on the free list.
  abbrev pub Removed : ℕ → BlockSumTable F → BlockSumTable F → Type 0
  Removed slot t t' =
      (remove F slot t ≡ some t')
      × IsValid F t'
      × Changed F slot (nothing F) (get_or t.leaves slot (nothing F)) t t'
      × (t'.free_slots ≡ slot ∷ t.free_slots)

  pub remove-IsValid :
      (slot : ℕ) (t : BlockSumTable F)
      → IsValid F t
      → slot < length t.leaves
      → mem slot t.free_slots ≡ false
      → (t' : BlockSumTable F) × Removed slot t t'
  unfolding remove
  remove-IsValid slot t v h used =
      let (t₁, run, v₁, c, same) =
        set_weight-IsValid F slot (nothing F) t v h (λ i m e. ground (arith, e, m, used)) in
      let free : (i : ℕ)
          → mem i (slot ∷ t₁.free_slots) ≡ true
          → (i < length t₁.leaves) × (get_or t₁.leaves i (nothing F) ≡ nothing F) =
        λ i m. elim (ℕ_discrete slot i) [
          | yes p ↦ rw (← p) (omega (arith, c.size), c.leaf)
          | no p ↦ v₁.free i (ground (arith, m, p))
        ] in
      (
        record t₁ { free_slots = slot ∷ t₁.free_slots },
        (
          rw (run, remove) refl,
          record {
            sized = v₁.sized;
            covered = v₁.covered;
            filled = v₁.filled;
            free = free;
            freed_once =
                subst (λ xs. distinct (slot ∷ xs) ≡ true) (sym same)
                  (distinct_cons slot t.free_slots used v.freed_once);
          },
          record {
            size = c.size;
            leaf = c.leaf;
            leaves_kept = c.leaves_kept;
            own_block = c.own_block;
            blocks_kept = c.blocks_kept;
            total = c.total;
            same_size = c.same_size;
            same_requests = c.same_requests;
            same_fall_through = c.same_fall_through;
          },
          ap (◌∷◌ slot) same,
        ),
      )

  -- An update clamps the weight.
  abbrev pub Updated : ℕ → F.F64 → BlockSumTable F → BlockSumTable F → Type 0
  Updated slot weight t t' =
      (update F low high slot weight t ≡ some t')
      × IsValid F t'
      × Changed F slot (F.clamp low high weight) (get_or t.leaves slot (nothing F)) t t'
      × (t'.free_slots ≡ t.free_slots)

  pub update-IsValid :
      (slot : ℕ) (weight : F.F64) (t : BlockSumTable F)
      → IsValid F t
      → slot < length t.leaves
      → mem slot t.free_slots ≡ false
      → (t' : BlockSumTable F) × Updated slot weight t t'
  unfolding update
  update-IsValid slot weight t v h used =
      let (t', run, valid, c, same) =
        set_weight-IsValid F slot (F.clamp low high weight) t v h
          (λ i m e. ground (arith, e, m, used)) in
      (t', (run, valid, c, same))

  -- On a table whose blocks cover its leaves and whose free slots are distinct and weigh nothing, no
  -- operation panics and each leaves such a table. An insert gives the last slot that was freed,
  -- with the weight as it is, or else a new one, with the weight clamped. A removal of a slot in
  -- use puts it on the free list with no weight, and an update of one clamps the weight. Each adds
  -- the difference of the new weight and the old one to the block of the slot and to the total,
  -- once, and changes no other leaf and no other block.
  pub changes-IsValid :
      (slot : ℕ) (weight : F.F64) (t : BlockSumTable F)
      → IsValid F t
      → slot < length t.leaves
      → mem slot t.free_slots ≡ false
      → ((t' : BlockSumTable F) × Inserted t.free_slots weight t t')
        × ((t' : BlockSumTable F) × Removed slot t t')
        × ((t' : BlockSumTable F) × Updated slot weight t t')
  changes-IsValid slot weight t v h used = (
    insert-IsValid weight t v,
    remove-IsValid slot t v h used,
    update-IsValid slot weight t v h used,
  )
