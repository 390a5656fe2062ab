-- ===== src/Authorization/Permissions/Matching.antt =====
-- What `matches` of permissions.py decides: a relation on the segments of pattern and name.
use agentid_mcp_gateway.Prelude.{
  ℕ, suc, ◌+◌, ◌≤◌, zero, String, Bool, true, false, ◌||◌, none, some, List, [], ◌∷◌, ◌==◌, ◌≡◌,
  refl, ◌↔◌, ◌⊎◌, inl, inr, arith, eq_iff, eq_refl, length, get_elem?, split, text_cases,
  if◌then◌else◌,
}
use agentid_mcp_gateway.Authorization.Permissions.{matches_loop, matches}

-- `**` takes all the segments that are left, and no segment of the pattern behind it is read.
pub data SegmentsMatch : List String → List String → Type 0 where
  done : SegmentsMatch [] []
  recursive : {p : String} {ps vs : List String} → p ≡ "**" → SegmentsMatch (p ∷ ps) vs
  single :
      {p v : String} {ps vs : List String}
      → p ≡ "*"
      → SegmentsMatch ps vs
      → SegmentsMatch (p ∷ ps) (v ∷ vs)
  literal :
      {p v : String} {ps vs : List String}
      → p ≡ v
      → SegmentsMatch ps vs
      → SegmentsMatch (p ∷ ps) (v ∷ vs)

-- The same as a test, by recursion on both lists.
segments_match : List String → List String → Bool
segments_match [] [] = true
segments_match [] (v ∷ vs) = false
segments_match (p ∷ ps) [] = p == "**"
segments_match (p ∷ ps) (v ∷ vs) =
    let rest = segments_match ps vs in
    if p == "**" then true else if p == "*" || p == v then rest else false

drop : ℕ → List String → List String
drop zero vs = vs
drop (suc n) [] = []
drop (suc n) (v ∷ vs) = drop n vs

drop_at :
    (i : ℕ) (vs : List String)
    → ((get_elem? vs i ≡ none) × (drop i vs ≡ []) × (length vs ≤ i))
      ⊎ ((v : String) × (get_elem? vs i ≡ some v)
          × (drop i vs ≡ v ∷ drop (suc i) vs)
          × (suc i ≤ length vs))
unfolding drop
drop_at zero [] = inl (refl, refl, omega arith)
drop_at (suc i) [] = inl (refl, refl, omega arith)
drop_at zero (v ∷ vs) = inr (v, refl, refl, omega arith)
drop_at (suc i) (v ∷ vs) = elim (drop_at i vs) [
  | inl (a, b, c) ↦ inl (a, b, omega arith)
  | inr (w, a, b, c) ↦ inr (w, a, b, omega arith)
]

matches_loop_end :
    (i : ℕ) (pp vs : List String)
    → length pp ≡ i + 0
    → i ≤ length vs
    → matches_loop pp vs i [] ≡ segments_match [] (drop i vs)
unfolding matches_loop segments_match
matches_loop_end i pp vs h k = elim (drop_at i vs) [
  | inl (a, b, c) ↦ rw b (ground arith)
  | inr (w, a, b, c) ↦ rw b (ground arith)
]

matches_loop_lem :
    (pp vs : List String) (i : ℕ) (ps : List String)
    → length pp ≡ i + length ps
    → i ≤ length vs
    → matches_loop pp vs i ps ≡ segments_match ps (drop i vs)
unfolding matches_loop segments_match
matches_loop_lem pp vs i [] h k = matches_loop_end i pp vs h k
matches_loop_lem pp vs i (p ∷ ps) h k = elim (drop_at i vs) [
  | inl (a, b, c) ↦ rw b (ground (arith, a))
  | inr (w, a, b, c) ↦ rw b (ground (arith, a, matches_loop_lem pp vs (suc i) ps (omega arith) c))
]

segments_match→SegmentsMatch :
    (ps vs : List String) → segments_match ps vs ≡ true → SegmentsMatch ps vs
unfolding segments_match
segments_match→SegmentsMatch [] [] h = done
segments_match→SegmentsMatch [] (v ∷ vs) h = absurd (ground arith)
segments_match→SegmentsMatch (p ∷ ps) [] h = recursive ((eq_iff p "**").0 h)
segments_match→SegmentsMatch (p ∷ ps) (v ∷ vs) h = elim (text_cases p "**") [
  | inl e ↦ recursive e
  | inr e ↦ elim (text_cases p "*") [
    | inl s ↦ single s (segments_match→SegmentsMatch ps vs (ground (arith, eq_iff p "*")))
    | inr s ↦ elim (text_cases p v) [
      | inl l ↦ literal l (segments_match→SegmentsMatch ps vs (ground (arith, eq_iff p v)))
      | inr l ↦ absurd (ground arith)
    ]
  ]
]

SegmentsMatch→segments_match :
    {ps vs : List String} → SegmentsMatch ps vs → segments_match ps vs ≡ true
unfolding segments_match
SegmentsMatch→segments_match done = refl
SegmentsMatch→segments_match (recursive {p} {ps} {vs = []} e) = (eq_iff p "**").1 e
SegmentsMatch→segments_match (recursive {p} {ps} {vs = v ∷ vs} e) = ground (arith, eq_iff p "**")
SegmentsMatch→segments_match (single {p} {v} {ps} {vs} e m) =
    ground (arith, eq_iff p "*", SegmentsMatch→segments_match m)
SegmentsMatch→segments_match (literal {p} {v} {ps} {vs} e m) =
    ground (arith, eq_iff p v, SegmentsMatch→segments_match m)

segments_match_self : (vs : List String) → segments_match vs vs ≡ true
unfolding segments_match
segments_match_self [] = refl
segments_match_self (v ∷ vs) = ground (arith, eq_iff v v, segments_match_self vs)

recursive_pattern : (q : String) → segments_match (split b'.' "**") (split b'.' q) ≡ true
unfolding split segments_match
recursive_pattern q = elim (split b'.' q) as (λ vs. segments_match ("**" ∷ []) vs ≡ true) [
  | [] ↦ refl
  | v ∷ vs ↦ refl
]

-- The early returns of `matches` change nothing but for the pattern `*`.
matches-eq-segments :
    (p q : String)
    → matches p q ≡ (if p == "*" then true else segments_match (split b'.' p) (split b'.' q))
unfolding matches split drop
matches-eq-segments p q = elim (text_cases p "*") [
  | inl star ↦ rw (star) (ground arith)
  | inr star ↦ elim (text_cases p q) [
    | inl same ↦ rw (same, segments_match_self (split b'.' q), eq_refl) (ground arith)
    | inr differs ↦ elim (text_cases p "**") [
      | inl twice ↦ rw (twice, recursive_pattern q) (ground arith)
      | inr other ↦
          rw (differs, other, star)
            (matches_loop_lem (split b'.' p) (split b'.' q) 0 (split b'.' p) (omega arith)
              (omega arith))
    ]
  ]
]

-- A pattern matches a permission exactly when it is `*` or its segments match those of the
-- permission: one by one, each equal or under a `*`, up to a segment `**`, which takes all the
-- rest of the permission whatever the pattern has behind it.
pub matches_iff :
    (p q : String)
    → (matches p q ≡ true) ↔ ((p ≡ "*") ⊎ SegmentsMatch (split b'.' p) (split b'.' q))
matches_iff p q = (forth, back)
  where
    forth : matches p q ≡ true → (p ≡ "*") ⊎ SegmentsMatch (split b'.' p) (split b'.' q)
    forth h = elim (text_cases p "*") [
      | inl star ↦ inl star
      | inr star ↦ inr (segments_match→SegmentsMatch _ _ (ground (arith, matches-eq-segments p q)))
    ]

    back : (p ≡ "*") ⊎ SegmentsMatch (split b'.' p) (split b'.' q) → matches p q ≡ true
    back (inl star) = ground (arith, matches-eq-segments p q, eq_iff p "*")
    back (inr m) = ground (arith, matches-eq-segments p q, SegmentsMatch→segments_match m)
