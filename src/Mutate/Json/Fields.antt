-- ===== src/Mutate/Json/Fields.antt =====
-- What the random changes keep of an object's keys and an array's length.

use ast_sqlite_test.Common.{
  suc, ◌≡◌, refl, sym, ◌∷◌, Bool-cases, inl, inr, if◌then◌else◌, leb, ap, none, some,
}
use ast_sqlite_test.Mutate.Strategy.{Host, World, flip}
use ast_sqlite_test.Mutate.Json.{
  Json, null, boolean, number, string, array, object, Items, nil, cons, Entries, end, entry,
  keys_of, count_items, get_entry, item_or, roll, null_random_fields, null_entries, null_items,
  swap_random_fields, swap_entries, swap_items,
}

-- One value has the shape of another one: an object the same keys in the same order, an array as
-- many items.
abbrev pub SameShape : Json → Json → Type 0
SameShape (object m) (object m') = keys_of m ≡ keys_of m'
SameShape (object m) v = ⊥
SameShape (array a) (array a') = count_items a ≡ count_items a'
SameShape (array a) v = ⊥
SameShape null v = v ≡ null
SameShape (boolean b) v = v ≡ boolean b
SameShape (number n) v = v ≡ number n
SameShape (string s) v = v ≡ string s

module _ (H : Host) (chance : H.F64) where
  keys_of-null_entries :
      (m : Entries) (w : World H) → keys_of (null_entries H m chance w).0 ≡ keys_of m
  unfolding null_random_fields keys_of
  keys_of-null_entries end w = refl
  keys_of-null_entries (entry k v m) w =
      let (hit, w₁) = flip H chance w in
      let after : Json × World H = if hit then (null, w₁) else null_random_fields H v chance w₁ in
      ap (λ ks. k ∷ ks) (keys_of-null_entries m after.1)

  count_items-null_items :
      (a : Items) (w : World H) → count_items (null_items H a chance w).0 ≡ count_items a
  unfolding null_random_fields
  count_items-null_items nil w = refl
  count_items-null_items (cons v a) w =
      ap suc (count_items-null_items a (null_random_fields H v chance w).1)

  keys_of-swap_entries :
      (to from : Entries) (w : World H) → keys_of (swap_entries H to from chance w).0 ≡ keys_of to
  unfolding swap_random_fields keys_of
  keys_of-swap_entries end from w = refl
  keys_of-swap_entries (entry k v to) from w =
      let (hit, w₁) = flip H chance w in
      let after : Json × World H = elim (get_entry k from) [
        | none ↦ (v, w)
        | some new ↦ if hit then (new, w₁) else swap_random_fields H v new chance w₁
      ] in
      ap (λ ks. k ∷ ks) (keys_of-swap_entries to from after.1)

  count_items-swap_items :
      (to from : Items) (w : World H)
      → count_items (swap_items H to from chance w).0 ≡ count_items to
  unfolding swap_random_fields
  count_items-swap_items nil from w = refl
  count_items-swap_items (cons v to) from w =
      let (i, w₁) = roll H (count_items from) w in
      let (hit, w₂) = flip H chance w₁ in
      let donor = item_or from i null in
      let after : Json × World H =
        if hit then (donor, w₂) else swap_random_fields H v donor chance w₂ in
      ap suc (count_items-swap_items to from after.1)

  null_shape : (v : Json) (w : World H) → SameShape v (null_random_fields H v chance w).0
  unfolding null_random_fields
  null_shape (object m) w = sym (keys_of-null_entries m w)
  null_shape (array a) w = sym (count_items-null_items a w)
  null_shape null w = refl
  null_shape (boolean b) w = refl
  null_shape (number n) w = refl
  null_shape (string s) w = refl

  shape_self : (v : Json) → SameShape v v
  shape_self (object m) = refl
  shape_self (array a) = refl
  shape_self null = refl
  shape_self (boolean b) = refl
  shape_self (number n) = refl
  shape_self (string s) = refl

  swap_shape : (v src : Json) (w : World H) → SameShape v (swap_random_fields H v src chance w).0
  unfolding swap_random_fields
  swap_shape (object m) (object from) w = sym (keys_of-swap_entries m from w)
  swap_shape (array a) (array from) w = elim (Bool-cases (leb (count_items a) (count_items from))) [
    | inl t ↦ rw t (sym (count_items-swap_items a from w))
    | inr f ↦ rw f refl
  ]
  swap_shape v src w = shape_self v

  -- Nulling and swapping at random keep a value's shape: its keys in their order, the number of its
  -- items, and a scalar as it is.
  pub fields_shape :
      (v src : Json) (w : World H)
      → SameShape v (null_random_fields H v chance w).0
        × SameShape v (swap_random_fields H v src chance w).0
  fields_shape v src w = (null_shape v w, swap_shape v src w)
