-- ===== src/Engine/SumTable/Weights.antt =====
-- What a new weight of a slot changes, and that it keeps the table valid: the blocks cover the
-- leaves and each has one, and a slot on the free list weighs nothing.
use ast_sqlite_test.Common.{
  ℕ, zero, suc, ◌+◌, ◌*◌, ◌/◌, ◌≤◌, ◌<◌, ◌≡◌, ◌≢◌, refl, true, List, [], ◌∷◌, ◌++◌, sym, ◌∙◌, ap,
  some, leb, if◌then◌else◌, length, get_or, set, arith, Bool-cases, inl, inr, ◌⊎◌, max, length-set,
  length-append, get_or-set_self, get_or-set_ne, get_elem?_in_range,
}
use ast_sqlite_test.Common.Assoc.{mem, distinct}
use native.Mathlib.Nat.{
  div-mul-le_self, mod-lt, div-add-mod, mul-le-mul_right, suc-mul, div-le_of_le-mul, mul_comm,
}
use ast_sqlite_test.Feedback.Floats.{Floats}
use ast_sqlite_test.Engine.SumTable.{nothing, BlockSumTable, set_weight}

pub block_bounds :
    (slot size : ℕ) → 0 < size → (slot / size * size ≤ slot) × (slot < slot / size * size + size)
block_bounds slot size h = (
  div-mul-le_self slot size,
  omega (arith, mod-lt slot h, div-add-mod slot size, mul_comm size (slot / size)),
)

-- A block ends before the next one starts.
pub block_apart : (b b' size : ℕ) → b < b' → b * size + size ≤ b' * size
block_apart b b' size h =
    let le : suc b ≤ b' = omega arith in omega (arith, mul-le-mul_right size le, suc-mul b size)

module _ (F : Floats) where
  pub record IsValid (t : BlockSumTable F) : Type 0 where
    pub sized : 0 < t.block_size
    pub covered : length t.leaves ≤ length t.blocks * t.block_size
    pub filled : (b : ℕ) → b < length t.blocks → b * t.block_size < length t.leaves
    pub free :
        (i : ℕ)
        → mem i t.free_slots ≡ true
        → (i < length t.leaves) × (get_or t.leaves i (nothing F) ≡ nothing F)
    pub freed_once : distinct t.free_slots ≡ true

  -- What becomes of a table when a slot that weighed `old` weighs `weight`: no other leaf changes, the
  -- difference is added to the block of the slot and to the total, and no other block changes.
  pub record Changed (slot : ℕ) (weight old : F.F64) (t t' : BlockSumTable F) : Type 0 where
    pub size : length t'.leaves ≡ max (length t.leaves) (slot + 1)
    pub leaf : get_or t'.leaves slot (nothing F) ≡ weight
    pub leaves_kept :
        (i : ℕ) → slot ≢ i → get_or t'.leaves i (nothing F) ≡ get_or t.leaves i (nothing F)
    pub own_block :
        get_or t'.blocks (slot / t.block_size) (nothing F)
        ≡ F.add (get_or t.blocks (slot / t.block_size) (nothing F)) (F.sub weight old)
    pub blocks_kept :
        (b : ℕ)
        → slot / t.block_size ≢ b
        → get_or t'.blocks b (nothing F) ≡ get_or t.blocks b (nothing F)
    pub total : t'.total_sum ≡ F.add t.total_sum (F.sub weight old)
    pub same_size : t'.block_size ≡ t.block_size
    pub same_requests : t'.requests ≡ t.requests
    pub same_fall_through : t'.fall_through ≡ t.fall_through

  pub get_or_push :
      (xs : List F.F64) (i : ℕ)
      → get_or (xs ++ nothing F ∷ []) i (nothing F) ≡ get_or xs i (nothing F)
  get_or_push [] zero = refl
  get_or_push [] (suc i) = refl
  get_or_push (x ∷ xs) zero = refl
  get_or_push (x ∷ xs) (suc i) = get_or_push xs i

  get_or_past : (xs : List F.F64) (i : ℕ) → length xs ≤ i → get_or xs i (nothing F) ≡ nothing F
  get_or_past [] i h = refl
  get_or_past (x ∷ xs) zero h = absurd (omega arith)
  get_or_past (x ∷ xs) (suc i) h = get_or_past xs i (omega arith)

  -- The table before is filled but for the slot, which may be a new one of a new block.
  module _ (slot : ℕ) (weight : F.F64) (t : BlockSumTable F) (sized : 0 < t.block_size)
      (h : slot < length t.leaves) (near : slot / t.block_size ≤ length t.blocks)
      (covered : (slot + 1 ≡ length t.leaves) ⊎ (length t.leaves ≤ length t.blocks * t.block_size))
      (filled : (b : ℕ) → b < length t.blocks → b * t.block_size < length t.leaves) where
    abbrev block_idx : ℕ
    block_idx = slot / t.block_size

    abbrev grown : List F.F64
    grown = if leb (length t.blocks) block_idx then t.blocks ++ nothing F ∷ [] else t.blocks

    abbrev old : F.F64
    old = get_or t.leaves slot (nothing F)

    abbrev moved : F.F64
    moved = F.add (get_or grown block_idx (nothing F)) (F.sub weight old)

    abbrev pub changed : BlockSumTable F
    changed = record t {
      leaves = set t.leaves slot weight;
      blocks = set grown block_idx moved;
      total_sum = F.add t.total_sum (F.sub weight old);
    }

    get_or-grown : (b : ℕ) → get_or grown b (nothing F) ≡ get_or t.blocks b (nothing F)
    get_or-grown b = elim (Bool-cases (leb (length t.blocks) block_idx)) [
      | inl e ↦ rw e (get_or_push t.blocks b)
      | inr e ↦ rw e refl
    ]

    length-grown : (block_idx < length grown) × (length t.blocks ≤ length grown)
    length-grown = elim (Bool-cases (leb (length t.blocks) block_idx)) [
      | inl e ↦ rw e (ground (arith, near, length-append t.blocks (nothing F ∷ [])))
      | inr e ↦ rw e (ground arith)
    ]

    grown_by : (b : ℕ) → b < length grown → (b < length t.blocks) ⊎ (b ≡ block_idx)
    grown_by b = elim (Bool-cases (leb (length t.blocks) block_idx)) [
      | inl e ↦ rw e (λ l. elim (Bool-cases (leb (length t.blocks) b)) [
        | inl past ↦ inr (ground (arith, e, near, past, l, length-append t.blocks (nothing F ∷ [])))
        | inr before ↦ inl (ground (arith, before))
      ])
      | inr e ↦ rw e (λ l. inl l)
    ]

    pub set_weight_runs : set_weight F slot weight t ≡ some changed
    unfolding set_weight
    set_weight_runs =
        rw
          (
            get_elem?_in_range t.leaves slot (nothing F) h,
            set_weight,
            get_elem?_in_range grown block_idx (nothing F) length-grown.0,
          )
          refl

    pub set_weight-Changed : Changed slot weight old t changed
    set_weight-Changed = record {
      size = omega (arith, h, length-set t.leaves slot weight);
      leaf = get_or-set_self t.leaves slot weight (nothing F) h;
      leaves_kept = λ i ne. get_or-set_ne t.leaves slot i weight (nothing F) ne;
      own_block =
          get_or-set_self grown block_idx moved (nothing F) length-grown.0
          ∙ ap (λ x. F.add x (F.sub weight old)) (get_or-grown block_idx);
      blocks_kept = λ b ne. get_or-set_ne grown block_idx b moved (nothing F) ne ∙ get_or-grown b;
      total = refl;
      same_size = refl;
      same_requests = refl;
      same_fall_through = refl;
    }

    pub set_weight-covered : length changed.leaves ≤ length changed.blocks * t.block_size
    set_weight-covered =
        let (low, high) = block_bounds slot t.block_size sized in
        rw (length-set t.leaves slot weight, length-set grown block_idx moved)
          (elim covered [
            | inl last ↦ omega (
              arith,
              last,
              high,
              block_apart block_idx (length grown) t.block_size length-grown.0,
            )
            | inr all ↦ omega (arith, all, mul-le-mul_right t.block_size length-grown.1)
          ])

    pub set_weight-filled :
        (b : ℕ) → b < length changed.blocks → b * t.block_size < length changed.leaves
    set_weight-filled b l =
        let (low, high) = block_bounds slot t.block_size sized in
        rw (length-set t.leaves slot weight)
          (elim (grown_by b (omega (arith, l, length-set grown block_idx moved))) [
            | inl before ↦ filled b before
            | inr here ↦ rw here (omega (arith, low, h))
          ])

  pub near_lem :
      (slot : ℕ) (t : BlockSumTable F)
      → IsValid t
      → slot ≤ length t.leaves
      → slot / t.block_size ≤ length t.blocks
  near_lem slot t v h =
      div-le_of_le-mul t.block_size
        (omega (arith, h, v.covered, mul_comm t.block_size (length t.blocks)))

  -- A slot that the table has takes a weight.
  pub set_weight-IsValid :
      (slot : ℕ) (weight : F.F64) (t : BlockSumTable F)
      → IsValid t
      → slot < length t.leaves
      → ((i : ℕ) → mem i t.free_slots ≡ true → i ≢ slot)
      → (t' : BlockSumTable F) × (set_weight F slot weight t ≡ some t')
        × IsValid t'
        × Changed slot weight (get_or t.leaves slot (nothing F)) t t'
        × (t'.free_slots ≡ t.free_slots)
  set_weight-IsValid slot weight t v h used =
      let near = near_lem slot t v (omega (arith, h)) in
      (
        changed slot weight t v.sized h near (inr v.covered) v.filled,
        set_weight_runs slot weight t v.sized h near (inr v.covered) v.filled,
        record {
          sized = v.sized;
          covered = set_weight-covered slot weight t v.sized h near (inr v.covered) v.filled;
          filled = set_weight-filled slot weight t v.sized h near (inr v.covered) v.filled;
          free = λ i m. (
            omega (arith, length-set t.leaves slot weight, (v.free i m).0),
            get_or-set_ne t.leaves slot i weight (nothing F) (λ e. used i m (sym e))
                ∙ (v.free i m).1,
          );
          freed_once = v.freed_once;
        },
        set_weight-Changed slot weight t v.sized h near (inr v.covered) v.filled,
        refl,
      )

  -- A slot is added, and takes a weight.
  pub push-IsValid :
      (weight : F.F64) (t : BlockSumTable F)
      → IsValid t
      → (t' : BlockSumTable F) × (set_weight F
            (length t.leaves)
            weight
            (record t { leaves = t.leaves ++ nothing F ∷ [] })
          ≡ some t')
        × IsValid t'
        × Changed (length t.leaves) weight (nothing F) t t'
        × (t'.free_slots ≡ t.free_slots)
  push-IsValid weight t v =
      let t₁ : BlockSumTable F = record t { leaves = t.leaves ++ nothing F ∷ [] } in
      let slot = length t.leaves in
      let longer : length t₁.leaves ≡ slot + 1 = length-append t.leaves (nothing F ∷ []) in
      let near = near_lem slot t v (omega arith) in
      let h : slot < length t₁.leaves = omega (arith, longer) in
      let filled : (b : ℕ) → b < length t.blocks → b * t.block_size < length t₁.leaves =
        λ b l. omega (arith, v.filled b l, longer) in
      let c = set_weight-Changed slot weight t₁ v.sized h near (inl (sym longer)) filled in
      let was : get_or t₁.leaves slot (nothing F) ≡ nothing F =
        get_or_push t.leaves slot ∙ get_or_past t.leaves slot (omega arith) in
      (
        changed slot weight t₁ v.sized h near (inl (sym longer)) filled,
        set_weight_runs slot weight t₁ v.sized h near (inl (sym longer)) filled,
        record {
          sized = v.sized;
          covered = set_weight-covered slot weight t₁ v.sized h near (inl (sym longer)) filled;
          filled = set_weight-filled slot weight t₁ v.sized h near (inl (sym longer)) filled;
          free = λ i m.
              let (low, zero_at) = v.free i m in
              (
                omega (arith, length-set t₁.leaves slot weight, low, longer),
                get_or-set_ne t₁.leaves slot i weight (nothing F) (λ e. omega (arith, low, e))
                    ∙ get_or_push t.leaves i
                    ∙ zero_at,
              );
          freed_once = v.freed_once;
        },
        record {
          size = omega (arith, c.size, longer);
          leaf = c.leaf;
          leaves_kept = λ i ne. c.leaves_kept i ne ∙ get_or_push t.leaves i;
          own_block =
              c.own_block
              ∙ ap (λ x. F.add (get_or t.blocks (slot / t.block_size) (nothing F)) (F.sub weight x))
                  was;
          blocks_kept = c.blocks_kept;
          total = ap (λ x. F.add t.total_sum (F.sub weight x)) was;
          same_size = refl;
          same_requests = refl;
          same_fall_through = refl;
        },
        refl,
      )
