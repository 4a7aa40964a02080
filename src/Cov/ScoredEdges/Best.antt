-- ===== src/Cov/ScoredEdges/Best.antt =====
-- `update_if_best` edge by edge.
use ast_sqlite_test.Common.{
  Option, ◌⊎◌, ◌≢◌, inl, inr, ℕ, ◌/◌, ◌%◌, ◌<◌, ◌≡◌, ◌↔◌, refl, ◌∙◌, Bool, true, false, ◌&&◌, ◌||◌,
  List, [], ◌∷◌, Option, none, some, ltb, ◌==◌, if◌then◌else◌, length, get_or, set, any, all,
  length-set, get_elem?_in_range, get_or-set_self, get_or-set_ne, Bool-cases, inl, inr, arith,
  ==_refl, ℕ_discrete, subst,
}
use ast_sqlite_test.Common.Assoc.{mem}
use ast_sqlite_test.Core.Entry.{EntryId, u32_mod}
use ast_sqlite_test.Cov.ScoredEdges.{
  ScoredEntry, ScoredEdges, ilog10, log10_floor, saturating_div, saturating_mul, beats, claim_edges,
  score_of, update_if_best,
}

abbrev pub in_range : ℕ → List ℕ → Bool
in_range n edges = all (λ e. ltb e n) edges

-- A slot without an entry, or with one of a higher score.
abbrev pub improves : ℕ → Option ScoredEntry → Bool
improves score none = true
improves score (some e) = ltb score e.score

beats_lem : (score : ℕ) (o : Option ScoredEntry) → beats score o ≡ improves score o
unfolding beats
beats_lem score none = refl
beats_lem score (some e) = refl

-- What an edge's slot holds after an entry with this score has hit `edges`.
abbrev pub claimed : EntryId → ℕ → List ℕ → ℕ → Option ScoredEntry → Option ScoredEntry
claimed id score edges e old =
    if mem e edges && improves score old then some (record { id = id; score = score }) else old

abbrev pub wins : ℕ → List ℕ → List (Option ScoredEntry) → Bool
wins score edges best = any (λ e. improves score (get_or best e none)) edges

module _ (id : EntryId) (score : ℕ) where
  abbrev pub winner : Option ScoredEntry
  winner = some (record { id = id; score = score })

  pub record Claims (edges : List ℕ) (best : List (Option ScoredEntry)) (flag : Bool)
      (r : List (Option ScoredEntry) × Bool) : Type 0 where
    pub size : length r.0 ≡ length best
    pub won : r.1 ≡ flag || wins score edges best
    pub slots : (e : ℕ) → get_or r.0 e none ≡ claimed id score edges e (get_or best e none)

  claimed_write :
      (edge : ℕ) (edges : List ℕ) (e : ℕ) (best : List (Option ScoredEntry))
      → edge < length best
      → improves score (get_or best edge none) ≡ true
      → claimed id score edges e (get_or (set best edge winner) e none)
        ≡ claimed id score (edge ∷ edges) e (get_or best e none)
  claimed_write edge edges e best here b = elim (ℕ_discrete edge e) [
    | yes p ↦
        subst
          (λ k.
            claimed id score edges k (get_or (set best edge winner) k none)
            ≡ claimed id score (edge ∷ edges) k (get_or best k none))
          p (rw (get_or-set_self best edge winner none here, b, ==_refl edge) (ground arith))
    | no p ↦ rw (get_or-set_ne best edge e winner none p) (ground arith)
  ]

  claimed_skip :
      (edge : ℕ) (edges : List ℕ) (e : ℕ) (best : List (Option ScoredEntry))
      → improves score (get_or best edge none) ≡ false
      → claimed id score edges e (get_or best e none)
        ≡ claimed id score (edge ∷ edges) e (get_or best e none)
  claimed_skip edge edges e best b = elim (ℕ_discrete edge e) [
    | yes p ↦ rw (← p) (rw b (ground arith))
    | no p ↦ ground arith
  ]

  -- A slot that is not in range is never claimed; the write there does nothing.
  pub claim_edges-Claims :
      (edges : List ℕ) (best : List (Option ScoredEntry)) (flag : Bool)
      → in_range (length best) edges ≡ true
      → (r : List (Option ScoredEntry) × Bool) × (claim_edges id score edges best flag ≡ some r)
        × Claims edges best flag r
  unfolding claim_edges
  claim_edges-Claims [] best flag h =
      ((best, flag), refl, record { size = refl; won = ground arith; slots = λ e. refl })
  claim_edges-Claims (edge ∷ edges) best flag h =
      let here : edge < length best = ground arith in
      let rest : in_range (length best) edges ≡ true = ground arith in
      let found = get_elem?_in_range best edge none here in
      let same = beats_lem score (get_or best edge none) in
      elim (Bool-cases (improves score (get_or best edge none))) [
        | inl b ↦
            let size = length-set best edge winner in
            let (r, run, c) = claim_edges-Claims edges (set best edge winner) true (rw size rest) in
            (
              r,
              rw (found, claim_edges, same ∙ b) run,
              record {
                size = c.size ∙ size;
                won = rw (c.won, b) (ground arith);
                slots = λ e. c.slots e ∙ claimed_write edge edges e best here b;
              },
            )
        | inr b ↦
            let (r, run, c) = claim_edges-Claims edges best flag rest in
            (
              r,
              rw (found, claim_edges, same ∙ b) run,
              record {
                size = c.size;
                won = rw b (c.won);
                slots = λ e. c.slots e ∙ claimed_skip edge edges e best b;
              },
            )
      ]

  -- Where the score wins nowhere, nothing is written.
  claim_edges_idle :
      (edges : List ℕ) (best : List (Option ScoredEntry)) (flag : Bool)
      → in_range (length best) edges ≡ true
      → wins score edges best ≡ false
      → claim_edges id score edges best flag ≡ some (best, flag)
  unfolding claim_edges
  claim_edges_idle [] best flag h w = refl
  claim_edges_idle (edge ∷ edges) best flag h w =
      let b : improves score (get_or best edge none) ≡ false = ground arith in
      rw
        (
          get_elem?_in_range best edge none (ground arith),
          claim_edges,
          beats_lem score (get_or best edge none) ∙ b,
        )
        (claim_edges_idle edges best flag (ground arith) (ground arith))

-- `ceil(ln(1 + n))` is at least 1 for n at least 1.
module _ (ceil_ln_1p : ℕ → ℕ) (ceil_ln_1p_pos : (n : ℕ) → 0 < n → 0 < ceil_ln_1p n) where
  score_of_lem :
      (query_len hits exec : ℕ)
      → 0 < exec
      → 0 < hits
      → (score : ℕ) × (score_of ceil_ln_1p query_len hits exec ≡ some score)
  unfolding score_of ilog10 saturating_div
  score_of_lem query_len hits exec e h =
      let p = ceil_ln_1p_pos hits h in
      let z : (exec == 0) ≡ false = ground arith in
      let d : (ceil_ln_1p hits == 0) ≡ false = ground arith in
      (
        saturating_mul (log10_floor 10 exec) (query_len % u32_mod) / ceil_ln_1p hits,
        rw z (rw d refl),
      )

  module _ (s : ScoredEdges) (id query_len hits exec : ℕ) (edges : List ℕ) (some_hit : 0 < hits)
      (known : in_range (length s.best_entries) edges ≡ true) where
    -- With a running time and a hit the entry gets a score, and takes exactly the hit edges
    -- whose best score it beats or that have none; all other edges keep their best entry. It
    -- is reported as best anywhere exactly when it takes an edge.
    pub update_if_best-Claims :
        0 < exec
        → (score : ℕ) × (s' : ScoredEdges) × (is_best : Bool) × (score_of ceil_ln_1p query_len hits
              exec
            ≡ some score)
          × (update_if_best ceil_ln_1p s id query_len hits exec edges ≡ some (s', is_best))
          × (is_best ≡ wins score edges s.best_entries)
          × ((e : ℕ)
              → get_or s'.best_entries e none
                ≡ claimed id score edges e (get_or s.best_entries e none))
    unfolding update_if_best
    update_if_best-Claims ran =
        let (score, scored) = score_of_lem query_len hits exec ran some_hit in
        let (r, run, c) = claim_edges-Claims id score edges s.best_entries false known in
        (score, record { best_entries = r.0 }, r.1, scored, rw scored (rw run refl), c.won, c.slots)

    -- An entry that is best nowhere changes nothing.
    pub update_if_best_idle :
        (s' : ScoredEdges)
        → update_if_best ceil_ln_1p s id query_len hits exec edges ≡ some (s', false)
        → s' ≡ s
    unfolding update_if_best
    update_if_best_idle s' h = elim (ℕ_discrete exec 0) [
      | yes z ↦ absurd (unfold score_of ilog10 in ground arith)
      | no nz ↦
          let (score, scored) = score_of_lem query_len hits exec (omega arith) some_hit in
          let (r, run, c) = claim_edges-Claims id score edges s.best_entries false known in
          let lost : wins score edges s.best_entries ≡ false = ground (arith, scored, run, c.won) in
          let idle = claim_edges_idle id score edges s.best_entries false known lost in
          ground (arith, scored, idle)
    ]

  claimed_some : {B : Type 0} {o : Option B} {b : B} → o ≡ some b → o ≢ none
  claimed_some k h = ground (arith, h, k)

  -- Where the edges are in range, and the ceiling of the logarithm of 1 + n is 0 exactly for n = 0,
  -- it panics exactly when the running time is 0, where the logarithm is not defined, or there is
  -- no hit, where the length of the query is divided by 0.
  pub update_if_best_panics :
      ceil_ln_1p 0 ≡ 0
      → (s : ScoredEdges) (id query_len hits exec : ℕ) (edges : List ℕ)
      → in_range (length s.best_entries) edges ≡ true
      → (update_if_best ceil_ln_1p s id query_len hits exec edges ≡ none)
        ↔ ((exec ≡ 0) ⊎ (hits ≡ 0))
  unfolding update_if_best score_of ilog10 saturating_div
  update_if_best_panics nothing s id query_len hits exec edges known = (
    λ h. elim (ℕ_discrete exec 0) [
      | yes z ↦ inl z
      | no nz ↦ elim (ℕ_discrete hits 0) [
        | yes none_hit ↦ inr none_hit
        | no some_hit ↦
            let taken =
              update_if_best-Claims s id query_len hits exec edges (omega (arith, some_hit)) known
                (omega (arith, nz)) in
            absurd (claimed_some taken.4 h)
      ]
    ],
    λ e. elim e [
      | inl z ↦ rw z refl
      | inr none_hit ↦ elim (ℕ_discrete exec 0) [
        | yes z ↦ rw z refl
        | no nz ↦
            let t : (exec == 0) ≡ false = ground (arith, nz) in rw none_hit (rw t (rw nothing refl))
      ]
    ],
  )
