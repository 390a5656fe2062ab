-- ===== src/History/Evolution.antt =====
-- How the rows of a table go on: none is taken away or moved, each may change as a relation allows, and new
-- ones come after them.
use agentid_mcp_gateway.Prelude.{
  Bool, true, some, List, [], ◌∷◌, ◌++◌, ◌≡◌, refl, arith, find_first, update_where, Bool-cases,
  inl, inr,
}

-- every element has the property
pub data Every {A : Type 0} (P : A → Type 0) : List A → Type 0 where
  none_left : Every P []
  and_then : {x : A} {xs : List A} → P x → Every P xs → Every P (x ∷ xs)

pub data Evolved {A : Type 0} (R : A → A → Type 0) (P : A → Type 0) : List A → List A → Type 0 where
  added : {ys : List A} → Every P ys → Evolved R P [] ys
  kept : {x y : A} {xs ys : List A} → R x y → Evolved R P xs ys → Evolved R P (x ∷ xs) (y ∷ ys)

module _ {A : Type 0} (R : A → A → Type 0) (P : A → Type 0) where
  module _ (reflexive : (x : A) → R x x) where
    pub Evolved-append : (xs : List A) {ys : List A} → Every P ys → Evolved R P xs (xs ++ ys)
    Evolved-append [] new = added new
    Evolved-append (x ∷ xs) new = kept (reflexive x) (Evolved-append xs new)

    pub Evolved-refl : (xs : List A) → Evolved R P xs xs
    Evolved-refl [] = added none_left
    Evolved-refl (x ∷ xs) = kept (reflexive x) (Evolved-refl xs)

    -- a write to some rows
    pub Evolved-update_where :
        (p : A → Bool) (f : A → A)
        → ((x : A) → p x ≡ true → R x (f x))
        → (xs : List A) → Evolved R P xs (update_where p f xs)
    Evolved-update_where p f allowed [] = added none_left
    Evolved-update_where p f allowed (x ∷ xs) = elim (Bool-cases (p x)) [
      | inl e ↦ rw e (kept (allowed x e) (Evolved-update_where p f allowed xs))
      | inr e ↦ rw e (kept (reflexive x) (Evolved-update_where p f allowed xs))
    ]

  module _ (stable : (x y : A) → P x → R x y → P y) where
    pub Every-Evolved : {xs ys : List A} → Every P xs → Evolved R P xs ys → Every P ys
    Every-Evolved none_left (added new) = new
    Every-Evolved (and_then p ps) (kept r e) = and_then (stable _ _ p r) (Every-Evolved ps e)

    pub Evolved-trans :
        (transitive : (x y z : A) → R x y → R y z → R x z) {xs ys zs : List A}
        → Evolved R P xs ys
        → Evolved R P ys zs
        → Evolved R P xs zs
    Evolved-trans transitive (added new) later = added (Every-Evolved new later)
    Evolved-trans transitive (kept r e) (kept r' e') =
        kept (transitive _ _ _ r r') (Evolved-trans transitive e e')

  -- The first row that passes a test is still the first that does, as the relation left it.
  pub find_first-Evolved :
      (p : A → Bool) (same : (x y : A) → R x y → p y ≡ p x) {xs ys : List A} {x : A}
      → Evolved R P xs ys
      → find_first p xs ≡ some x
      → (y : A) × (find_first p ys ≡ some y) × R x y
  find_first-Evolved p same (added new) h = absurd (ground arith)
  find_first-Evolved p same {xs = a ∷ l} {ys = b ∷ l2} {x} (kept r e) h = elim (Bool-cases (p a)) [
    | inl f ↦ let i : x ≡ a = ground arith in (b, rw (same a b r, f) refl, rw i r)
    | inr f ↦
        let h' : find_first p l ≡ some x = ground arith in
        let (y, g, q) = find_first-Evolved p same e h' in (y, rw (same a b r, f) g, q)
  ]

-- What may not change at all is only added to.
pub Evolved-append-only :
    {A : Type 0} (P : A → Type 0) {xs ys : List A}
    → Evolved (λ x y. y ≡ x) P xs ys
    → (new : List A) × (ys ≡ xs ++ new) × Every P new
Evolved-append-only P {ys = ys} (added every) = (ys, refl, every)
Evolved-append-only P (kept r e) =
    let (new, h, every) = Evolved-append-only P e in (new, rw (r, h) refl, every)
