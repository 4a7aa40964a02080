-- ===== src/Mutate/Json/Depth.antt =====
-- How deep objects stand in one another, and what pruning and expanding make of it.
use Prim.Native.String.{String}
use text.Mathlib.Text.{◌==◌ as str_eq}
use ast_sqlite_test.Common.{
  ℕ, zero, suc, ◌+◌, ◌≤◌, ◌≡◌, ◌↔◌, subst, refl, max, arith, List, some, Bool-cases, Option-cases,
  inl, inr, get_or, length, ap,
}
use ast_sqlite_test.Mutate.Strategy.{Host, World, flip}
use ast_sqlite_test.Mutate.Json.{
  Json, null, boolean, number, string, array, object, Entries, end, entry, prune_depth,
  prune_entries, as_object, get_entry, set_entry, roll, expand_at, expand_recursive,
}

-- The objects on the way to the deepest one that has entries; what arrays hold does not count.
unfoldable mutual
  pub object_depth : Json → ℕ
  object_depth (object m) = entries_depth m
  object_depth (array a) = 0
  object_depth null = 0
  object_depth (boolean b) = 0
  object_depth (number n) = 0
  object_depth (string s) = 0

  pub entries_depth : Entries → ℕ
  entries_depth end = 0
  entries_depth (entry k v m) = max (suc (object_depth v)) (entries_depth m)

mutual
  unfolding object_depth prune_depth

  depth-prune_depth : (v : Json) (d : ℕ) → object_depth (prune_depth v d) ≤ d
  depth-prune_depth (object m) zero = omega arith
  depth-prune_depth (object m) (suc d) = depth-prune_entries m d
  depth-prune_depth (array a) d = omega arith
  depth-prune_depth null d = omega arith
  depth-prune_depth (boolean b) d = omega arith
  depth-prune_depth (number n) d = omega arith
  depth-prune_depth (string s) d = omega arith

  depth-prune_entries : (m : Entries) (d : ℕ) → entries_depth (prune_entries m d) ≤ suc d
  depth-prune_entries end d = omega arith
  depth-prune_entries (entry k v m) d =
      omega (arith, depth-prune_depth v d, depth-prune_entries m d)

mutual
  unfolding object_depth prune_depth

  prune_depth-shallow : (v : Json) (d : ℕ) → object_depth v ≤ d → prune_depth v d ≡ v
  prune_depth-shallow (object end) zero h = refl
  prune_depth-shallow (object (entry k v m)) zero h = absurd (omega (arith, h))
  prune_depth-shallow (object m) (suc d) h = ap object (prune_entries-shallow m d h)
  prune_depth-shallow (array a) d h = refl
  prune_depth-shallow null d h = refl
  prune_depth-shallow (boolean b) d h = refl
  prune_depth-shallow (number n) d h = refl
  prune_depth-shallow (string s) d h = refl

  prune_entries-shallow : (m : Entries) (d : ℕ) → entries_depth m ≤ suc d → prune_entries m d ≡ m
  prune_entries-shallow end d h = refl
  prune_entries-shallow (entry k v m) d h =
      cc (prune_depth-shallow v d (omega (arith, h)), prune_entries-shallow m d (omega (arith, h)))

-- Pruning leaves objects at most as deep as asked for, changes exactly the values that are deeper,
-- and changes nothing when done again.
pub prune_depth_lem :
    (v : Json) (d : ℕ)
    → (object_depth (prune_depth v d) ≤ d)
      × ((object_depth v ≤ d) ↔ (prune_depth v d ≡ v))
      × (prune_depth (prune_depth v d) d ≡ prune_depth v d)
prune_depth_lem v d = (
  depth-prune_depth v d,
  (prune_depth-shallow v d, λ same. subst (λ u. object_depth u ≤ d) same (depth-prune_depth v d)),
  prune_depth-shallow (prune_depth v d) d (depth-prune_depth v d),
)

depth-set_entry :
    (k : String) (v : Json) (m : Entries)
    → entries_depth (set_entry k v m) ≤ max (suc (object_depth v)) (entries_depth m)
unfolding object_depth set_entry
depth-set_entry k v end = omega arith
depth-set_entry k v (entry j u m) = elim (Bool-cases (str_eq j k)) [
  | inl t ↦ rw t (omega arith)
  | inr f ↦ rw f (omega (arith, depth-set_entry k v m))
]

as_object_depth : (v : Json) (m : Entries) → as_object v ≡ some m → object_depth v ≡ entries_depth m
unfolding object_depth
as_object_depth (object m') m h = ground (arith, h)
as_object_depth (array a) m h = ground (arith, h)
as_object_depth null m h = ground (arith, h)
as_object_depth (boolean b) m h = ground (arith, h)
as_object_depth (number n) m h = ground (arith, h)
as_object_depth (string s) m h = ground (arith, h)

module _ (H : Host) (root : Json) (bound : ℕ) (shallow : object_depth root ≤ bound) where
  expand_at_depth :
      (key : String) (deeper : Entries → Entries × World H) (depth : ℕ) (node : Entries)
      (w : World H)
      → entries_depth node ≤ bound
      → ((inner : Entries)
          → entries_depth inner ≤ bound
          → entries_depth (deeper inner).0 ≤ bound + depth)
      → entries_depth (expand_at H root key deeper node w).0 ≤ bound + suc depth
  unfolding expand_at
  expand_at_depth key deeper depth node w h ih = elim (Option-cases (get_entry key node)) [
    | inl gone ↦ rw (gone, expand_at) (omega (arith, h))
    | inr (slot, here) ↦ elim (Option-cases (as_object root)) [
      | inl leaf ↦
          rw (here, expand_at)
            (rw (leaf, expand_at) (omega (arith, h, shallow, depth-set_entry key root node)))
      | inr (m, is) ↦
          let inner = ih m (omega (arith, shallow, as_object_depth root m is)) in
          let flat : object_depth (object ((deeper m).0)) ≡ entries_depth (deeper m).0 =
            unfold object_depth in refl in
          rw (here, expand_at)
            (rw (is, expand_at)
              (omega (arith, h, inner, flat, depth-set_entry key (object ((deeper m).0)) node)))
    ]
  ]

  -- An expansion of so many levels makes objects deeper by at most as many.
  pub expand_recursive_depth :
      (keys : List String) (chance : H.F64) (depth : ℕ) (node : Entries) (w : World H)
      → entries_depth node ≤ bound
      → entries_depth (expand_recursive H root node keys depth chance w).0 ≤ bound + depth
  unfolding expand_recursive
  expand_recursive_depth keys chance zero node w h = omega (arith, h)
  expand_recursive_depth keys chance (suc depth) node w h =
      let (hit, w₁) = flip H chance w in
      let (i, w₂) = roll H (length keys) w₁ in
      let deep =
        expand_at_depth (get_or keys i "")
          (λ inner. expand_recursive H root inner keys depth chance w₂) depth node w₂ h
          (λ inner h'. expand_recursive_depth keys chance depth inner w₂ h') in
      elim (Bool-cases hit) [ inl t ↦ rw t deep | inr f ↦ rw f (omega (arith, h)) ]
