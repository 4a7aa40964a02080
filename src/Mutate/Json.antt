-- ===== src/Mutate/Json.antt =====
-- `serde_json::Value`, and what the strategies do with one: crates/lsf-mutate/src/recurse.rs,
-- reduce.rs and json_tree.rs. A number is kept as its text; the entries of an object stand in the
-- order of the map.
pub mod Depth
pub mod Fields
use Prim.Native.String.{String}
use text.Mathlib.Text.{◌==◌ as str_eq}
use ast_sqlite_test.Common.{
  ℕ, zero, suc, Bool, true, false, List, [], ◌∷◌, ◌++◌, Option, none, some, leb, if◌then◌else◌,
  length, get_or, is_some,
}
use ast_sqlite_test.Mutate.Strategy.{Host, World, flip}

mutual
  pub data Json : Type 0 where
    null : Json
    boolean : Bool → Json
    number string : String → Json
    array : Items → Json
    object : Entries → Json

  pub data Items : Type 0 where
    nil : Items
    cons : Json → Items → Items

  pub data Entries : Type 0 where
    end : Entries
    entry : String → Json → Entries → Entries

unfoldable mutual
  pub prune_depth : Json → ℕ → Json
  prune_depth (object m) zero = object end
  prune_depth (object m) (suc depth) = object (prune_entries m depth)
  prune_depth null depth = null
  prune_depth (boolean b) depth = boolean b
  prune_depth (number n) depth = number n
  prune_depth (string s) depth = string s
  prune_depth (array a) depth = array a

  pub prune_entries : Entries → ℕ → Entries
  prune_entries end depth = end
  prune_entries (entry k v m) depth = entry k (prune_depth v depth) (prune_entries m depth)

abbrev pub as_object : Json → Option Entries
as_object (object m) = some m
as_object (array a) = none
as_object null = none
as_object (boolean b) = none
as_object (number n) = none
as_object (string s) = none

unfoldable pub get_entry : String → Entries → Option Json
get_entry k end = none
get_entry k (entry j v m) = if str_eq j k then some v else get_entry k m

-- A write through `get_mut`, or an `insert` at a key that is there
unfoldable pub set_entry : String → Json → Entries → Entries
set_entry k v end = end
set_entry k v (entry j u m) = if str_eq j k then entry j v m else entry j u (set_entry k v m)

unfoldable pub keys_of : Entries → List String
keys_of end = []
keys_of (entry k v m) = k ∷ keys_of m

abbrev pub count_items : Items → ℕ
count_items nil = 0
count_items (cons v a) = suc (count_items a)

abbrev pub item_or : Items → ℕ → Json → Json
item_or nil i d = d
item_or (cons v a) zero d = v
item_or (cons v a) (suc i) d = item_or a i d

-- `dig`: the values that decode, a value before what it holds
module _ {Node : Type 0} (from_value : Json → Option Node) where
  abbrev pub found_first : Json → List Node → List Node
  found_first v rest = elim (from_value v) [ none ↦ rest | some node ↦ node ∷ rest ]

  unfoldable mutual
    pub extract_child_exprs : Json → List Node
    extract_child_exprs (object m) = found_first (object m) (dig_entries m)
    extract_child_exprs (array a) = found_first (array a) (dig_items a)
    extract_child_exprs null = found_first null []
    extract_child_exprs (boolean b) = found_first (boolean b) []
    extract_child_exprs (number n) = found_first (number n) []
    extract_child_exprs (string s) = found_first (string s) []

    pub dig_entries : Entries → List Node
    dig_entries end = []
    dig_entries (entry k v m) = extract_child_exprs v ++ dig_entries m

    pub dig_items : Items → List Node
    dig_items nil = []
    dig_items (cons v a) = extract_child_exprs v ++ dig_items a

  -- The keys at which the value decodes with the root in place of the entry
  unfoldable pub expandable : Json → Entries → List String → List String
  expandable root m [] = []
  expandable root m (k ∷ keys) =
      let rest = expandable root m keys in
      if is_some (from_value (object (set_entry k root m))) then k ∷ rest else rest

module _ (H : Host) where
  -- The index of one of a list that is not empty
  unfoldable pub roll : ℕ → World H → ℕ × World H
  roll n w = let (i, rng) = H.random_range 0 n w.rng in (i, record w { rng = rng })

  -- The root takes the place of the entry; only an object has entries to expand further.
  unfoldable pub expand_at :
      Json → String → (Entries → Entries × World H) → Entries → World H → Entries × World H
  expand_at root key deeper node w = elim (get_entry key node) [
    | none ↦ (node, w)
    | some slot ↦ elim (as_object root) [
      | none ↦ (set_entry key root node, w)
      | some inner_map ↦ (set_entry key (object ((deeper inner_map).0)) node, (deeper inner_map).1)
    ]
  ]

  unfoldable pub expand_recursive :
      Json → Entries → List String → ℕ → H.F64 → World H → Entries × World H
  expand_recursive root node expandable_fields zero chance_per_level w = (node, w)
  expand_recursive root node expandable_fields (suc depth) chance_per_level w =
      let (hit, w₁) = flip H chance_per_level w in
      let (i, w₂) = roll (length expandable_fields) w₁ in
      let expanded : Entries × World H =
        expand_at root (get_or expandable_fields i "")
          (λ inner. expand_recursive root inner expandable_fields depth chance_per_level w₂) node
          w₂ in
      if hit then expanded else (node, w₁)

  unfoldable mutual
    pub null_random_fields : Json → H.F64 → World H → Json × World H
    null_random_fields (object m) chance w =
        let (m', w') = null_entries m chance w in (object m', w')
    null_random_fields (array a) chance w = let (a', w') = null_items a chance w in (array a', w')
    null_random_fields null chance w = (null, w)
    null_random_fields (boolean b) chance w = (boolean b, w)
    null_random_fields (number n) chance w = (number n, w)
    null_random_fields (string s) chance w = (string s, w)

    pub null_entries : Entries → H.F64 → World H → Entries × World H
    null_entries end chance w = (end, w)
    null_entries (entry k v m) chance w =
        let (hit, w₁) = flip H chance w in
        let inner = null_random_fields v chance w₁ in
        let (v', w₂) = if hit then (null, w₁) else inner in
        let (m', w₃) = null_entries m chance w₂ in (entry k v' m', w₃)

    pub null_items : Items → H.F64 → World H → Items × World H
    null_items nil chance w = (nil, w)
    null_items (cons v a) chance w =
        let (v', w₁) = null_random_fields v chance w in
        let (a', w₂) = null_items a chance w₁ in (cons v' a', w₂)

  unfoldable mutual
    pub swap_random_fields : Json → Json → H.F64 → World H → Json × World H
    swap_random_fields (object to) (object from) chance w =
        let (to', w') = swap_entries to from chance w in (object to', w')
    swap_random_fields (array to) (array from) chance w =
        let swapped = swap_items to from chance w in
        if leb (count_items to) (count_items from)
        then (array (swapped.0), swapped.1)
        else (array to, w)
    swap_random_fields dst src chance w = (dst, w)

    pub swap_entries : Entries → Entries → H.F64 → World H → Entries × World H
    swap_entries end from chance w = (end, w)
    swap_entries (entry k v to) from chance w =
        let (hit, w₁) = flip H chance w in
        let changed : Json × World H = elim (get_entry k from) [
          | none ↦ (v, w)
          | some new ↦ if hit then (new, w₁) else swap_random_fields v new chance w₁
        ] in
        let (v', w₂) = changed in
        let (to', w₃) = swap_entries to from chance w₂ in (entry k v' to', w₃)

    pub swap_items : Items → Items → H.F64 → World H → Items × World H
    swap_items nil from chance w = (nil, w)
    swap_items (cons v to) from chance w =
        let (i, w₁) = roll (count_items from) w in
        let donor = item_or from i null in
        let (hit, w₂) = flip H chance w₁ in
        let inner = swap_random_fields v donor chance w₂ in
        let (v', w₃) = if hit then (donor, w₂) else inner in
        let (to', w₄) = swap_items to from chance w₃ in (cons v' to', w₄)
