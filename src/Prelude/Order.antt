-- ===== src/Prelude/Order.antt =====
-- Sorting by a test, and pages of a list: `sorted`, `list.sort`, `order_by`, slices, and `limit` with
-- `offset`. Rows that the test does not tell apart keep their order.
use Prim.Native.Nat.{ℕ, zero, suc, ◌+◌, ◌≤◌}
use mathlib.Core.Path.{◌≡◌, refl}
use mathlib.Core.Logic.{inl, inr}
use mathlib.Core.Bool.{Bool, true, false, ◌&&◌}
use mathlib.Core.List.{List, [], ◌∷◌, ◌++◌, Perm}
use mathlib.Core.List.Perm
use native.Mathlib.Omega.{arith}
use agentid_mcp_gateway.Prelude.Tests.{if◌then◌else◌, Bool-cases}
use agentid_mcp_gateway.Prelude.Lists.{length, all, select}

module _ {ℓ} {A : Type ℓ} where
  -- `xs[:n]`
  abbrev pub take : ℕ → List A → List A
  take zero xs = []
  take (suc n) [] = []
  take (suc n) (x ∷ xs) = x ∷ take n xs

  -- `xs[n:]`
  abbrev pub drop : ℕ → List A → List A
  drop zero xs = xs
  drop (suc n) [] = []
  drop (suc n) (x ∷ xs) = drop n xs

  pub length-take : (n : ℕ) (xs : List A) → length (take n xs) ≤ n
  length-take zero xs = omega arith
  length-take (suc n) [] = omega arith
  length-take (suc n) (x ∷ xs) = omega (arith, length-take n xs)

  -- A slice that is long enough is the whole list.
  pub take_all : (n : ℕ) (xs : List A) → length xs ≤ n → take n xs ≡ xs
  take_all zero [] h = refl
  take_all zero (x ∷ xs) h = absurd (omega arith)
  take_all (suc n) [] h = refl
  take_all (suc n) (x ∷ xs) h = ground (arith, take_all n xs)

  take-nil : (n : ℕ) → take n [] ≡ []
  take-nil zero = refl
  take-nil (suc n) = refl

  drop-nil : (n : ℕ) → drop n [] ≡ []
  drop-nil zero = refl
  drop-nil (suc n) = refl

  -- Two slices that follow one another are one.
  pub take-append-take : (n m : ℕ) (xs : List A) → take n xs ++ take m (drop n xs) ≡ take (n + m) xs
  take-append-take zero m xs = ground arith
  take-append-take (suc n) m [] = rw (take-nil m, take-nil (suc n + m)) refl
  take-append-take (suc n) m (x ∷ xs) =
      let e : suc n + m ≡ suc (n + m) = omega arith in rw (e, take-append-take n m xs) refl

  pub drop-drop : (n m : ℕ) (xs : List A) → drop n (drop m xs) ≡ drop (m + n) xs
  drop-drop n zero xs = ground arith
  drop-drop n (suc m) [] = rw (drop-nil n, drop-nil (suc m + n)) refl
  drop-drop n (suc m) (x ∷ xs) =
      let e : suc m + n ≡ suc (m + n) = omega arith in rw (e, drop-drop n m xs) refl

  pub all-implies :
      (p q : A → Bool) (xs : List A)
      → ((x : A) → p x ≡ true → q x ≡ true)
      → all p xs ≡ true
      → all q xs ≡ true
  all-implies p q [] imp h = refl
  all-implies p q (x ∷ xs) imp h = ground (arith, imp x, all-implies p q xs imp)

  module _ (p : A → Bool) where
    pub all-take : (n : ℕ) (xs : List A) → all p xs ≡ true → all p (take n xs) ≡ true
    all-take zero xs h = refl
    all-take (suc n) [] h = refl
    all-take (suc n) (x ∷ xs) h = ground (arith, all-take n xs)

    pub all-drop : (n : ℕ) (xs : List A) → all p xs ≡ true → all p (drop n xs) ≡ true
    all-drop zero xs h = h
    all-drop (suc n) [] h = refl
    all-drop (suc n) (x ∷ xs) h = ground (arith, all-drop n xs)

    pub all-select : (xs : List A) → all p (select p xs) ≡ true
    all-select [] = refl
    all-select (x ∷ xs) = ground (arith, all-select xs)

    pub length-select : (xs : List A) → length (select p xs) ≤ length xs
    length-select [] = omega arith
    length-select (x ∷ xs) = ground (arith, length-select xs)

  module _ (before : A → A → Bool) where
    unfoldable pub insert_by : A → List A → List A
    insert_by a [] = a ∷ []
    insert_by a (x ∷ xs) = let rest = insert_by a xs in if before a x then a ∷ x ∷ xs else x ∷ rest

    unfoldable pub sort_by : List A → List A
    unfolding insert_by
    sort_by [] = []
    sort_by (x ∷ xs) = insert_by x (sort_by xs)

    -- each element comes before the one that follows it
    abbrev pub is_ordered : List A → Bool
    is_ordered [] = true
    is_ordered (x ∷ []) = true
    is_ordered (x ∷ y ∷ xs) = before x y && is_ordered (y ∷ xs)

    -- A slice of a list in order is in order.
    pub is_ordered-take :
        (n : ℕ) (xs : List A) → is_ordered xs ≡ true → is_ordered (take n xs) ≡ true
    is_ordered-take zero xs h = refl
    is_ordered-take (suc n) [] h = refl
    is_ordered-take (suc zero) (x ∷ []) h = refl
    is_ordered-take (suc (suc n)) (x ∷ []) h = refl
    is_ordered-take (suc zero) (x ∷ y ∷ xs) h = refl
    is_ordered-take (suc (suc n)) (x ∷ y ∷ xs) h = ground (arith, is_ordered-take (suc n) (y ∷ xs))

    pub is_ordered-drop :
        (n : ℕ) (xs : List A) → is_ordered xs ≡ true → is_ordered (drop n xs) ≡ true
    is_ordered-drop zero xs h = h
    is_ordered-drop (suc n) [] h = refl
    is_ordered-drop (suc n) (x ∷ []) h = is_ordered-drop n [] refl
    is_ordered-drop (suc n) (x ∷ y ∷ xs) h = is_ordered-drop n (y ∷ xs) (ground arith)

    all-insert_by :
        (p : A → Bool) (a : A) (xs : List A) → all p (insert_by a xs) ≡ (p a && all p xs)
    unfolding insert_by
    all-insert_by p a [] = refl
    all-insert_by p a (x ∷ xs) = ground (arith, all-insert_by p a xs)

    pub all-sort_by : (p : A → Bool) (xs : List A) → all p (sort_by xs) ≡ all p xs
    unfolding sort_by
    all-sort_by p [] = refl
    all-sort_by p (x ∷ xs) = ground (arith, all-insert_by p x (sort_by xs), all-sort_by p xs)

    insert_by-perm : (a : A) (xs : List A) → Perm (insert_by a xs) (a ∷ xs)
    unfolding insert_by
    insert_by-perm a [] = Perm.refl _
    insert_by-perm a (x ∷ xs) = elim (Bool-cases (before a x)) [
      | inl e ↦ rw e (Perm.refl _)
      | inr e ↦ rw e (Perm.trans (Perm.cons x (insert_by-perm a xs)) (Perm.swap a x xs))
    ]

    -- Sorting loses and adds nothing.
    pub sort_by-perm : (xs : List A) → Perm (sort_by xs) xs
    unfolding sort_by
    sort_by-perm [] = Perm.refl _
    sort_by-perm (x ∷ xs) =
        Perm.trans (insert_by-perm x (sort_by xs)) (Perm.cons x (sort_by-perm xs))

    length-insert_by : (a : A) (xs : List A) → length (insert_by a xs) ≡ suc (length xs)
    unfolding insert_by
    length-insert_by a [] = refl
    length-insert_by a (x ∷ xs) = ground (arith, length-insert_by a xs)

    pub length-sort_by : (xs : List A) → length (sort_by xs) ≡ length xs
    unfolding sort_by
    length-sort_by [] = refl
    length-sort_by (x ∷ xs) = ground (arith, length-insert_by x (sort_by xs), length-sort_by xs)

    module _ (total : (a b : A) → before a b ≡ false → before b a ≡ true) where
      insert_by-is_ordered :
          (a : A) (xs : List A) → is_ordered xs ≡ true → is_ordered (insert_by a xs) ≡ true
      unfolding insert_by
      insert_by-is_ordered a [] h = refl
      insert_by-is_ordered a (x ∷ []) h = ground (arith, total a x)
      insert_by-is_ordered a (x ∷ y ∷ xs) h =
          ground (arith, total a x, insert_by-is_ordered a (y ∷ xs))

      -- The result is in order, where of two elements one comes before the other.
      pub sort_by-is_ordered : (xs : List A) → is_ordered (sort_by xs) ≡ true
      unfolding sort_by
      sort_by-is_ordered [] = refl
      sort_by-is_ordered (x ∷ xs) = insert_by-is_ordered x (sort_by xs) (sort_by-is_ordered xs)

-- each element stands in the relation to the one that follows it
abbrev pub Chained {ℓ} : {A : Type ℓ} → (A → A → Type 0) → List A → Type 0
Chained R [] = Unit {0}
Chained R (x ∷ []) = Unit {0}
Chained R (x ∷ y ∷ xs) = R x y × Chained R (y ∷ xs)

pub Chained-is_ordered {ℓ} :
    {A : Type ℓ} (before : A → A → Bool) (R : A → A → Type 0)
    → ((a b : A) → before a b ≡ true → R a b)
    → (xs : List A) → is_ordered before xs ≡ true
    → Chained R xs
Chained-is_ordered before R means [] h = tt
Chained-is_ordered before R means (x ∷ []) h = tt
Chained-is_ordered before R means (x ∷ y ∷ xs) h =
    (means x y (ground arith), Chained-is_ordered before R means (y ∷ xs) (ground arith))
