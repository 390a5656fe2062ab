-- ===== src/Prelude/Lists.antt =====
-- Lists and finite sets of texts. A Python set is a list; what the program does with one is to
-- test membership, to add, to unite, to intersect and to sort, and none of it shows the order.
use Prim.Native.Nat.{ℕ, zero, suc, ◌+◌}
use Prim.Native.String.{String}
use mathlib.Core.Path.{◌≡◌, refl}
use mathlib.Core.Logic.{inl, inr}
use mathlib.Core.Bool.{Bool, true, false, ◌||◌, ◌&&◌}
use mathlib.Core.Option.{Option, none, some}
use mathlib.Core.List.{List, [], ◌∷◌, ◌++◌}
use native.Mathlib.Omega.{arith}
use agentid_mcp_gateway.Prelude.Tests.{◌==◌, if◌then◌else◌, Bool-cases, text_cases}

module _ {ℓ} {A : Type ℓ} where
  abbrev pub length : List A → ℕ
  length [] = 0
  length (x ∷ xs) = suc (length xs)

  abbrev pub get_elem? : List A → ℕ → Option A
  get_elem? [] i = none
  get_elem? (x ∷ xs) zero = some x
  get_elem? (x ∷ xs) (suc i) = get_elem? xs i

  -- the first element that passes the test; a query with `where` and `db.scalar`
  abbrev pub find_first : (A → Bool) → List A → Option A
  find_first p [] = none
  find_first p (x ∷ xs) = if p x then some x else find_first p xs

  -- the elements that pass the test; a query with `where` and `db.scalars`
  abbrev pub select : (A → Bool) → List A → List A
  select p [] = []
  select p (x ∷ xs) = if p x then x ∷ select p xs else select p xs

  -- writes to the rows that pass the test
  abbrev pub update_where : (A → Bool) → (A → A) → List A → List A
  update_where p f [] = []
  update_where p f (x ∷ xs) = (if p x then f x else x) ∷ update_where p f xs

  abbrev pub any : (A → Bool) → List A → Bool
  any p [] = false
  any p (x ∷ xs) = p x || any p xs

  abbrev pub all : (A → Bool) → List A → Bool
  all p [] = true
  all p (x ∷ xs) = p x && all p xs

  abbrev pub is_empty : List A → Bool
  is_empty [] = true
  is_empty (_ ∷ _) = false

  pub length-append : (xs ys : List A) → length (xs ++ ys) ≡ length xs + length ys
  length-append [] ys = omega arith
  length-append (x ∷ xs) ys = omega (arith, length-append xs ys)

  -- What `find_first` returns passes the test.
  pub find_first-passes :
      (p : A → Bool) (xs : List A) {x : A} → find_first p xs ≡ some x → p x ≡ true
  find_first-passes p [] h = ground arith
  find_first-passes p (y ∷ xs) h = elim (Bool-cases (p y)) [
    | inl e ↦ ground arith
    | inr e ↦ find_first-passes p xs (ground arith)
  ]

module _ {ℓ} {A : Type ℓ} where
  -- a row as a write to the rows that pass the test leaves it
  abbrev pub written : (A → Bool) → (A → A) → Option A → Option A
  written p f none = none
  written p f (some x) = some (if p x then f x else x)

  -- A write that keeps what a query tests changes the row that the query finds, and no more.
  pub find_first-update_where :
      (p q : A → Bool) (f : A → A)
      → ((x : A) → q (f x) ≡ q x)
      → (xs : List A) → find_first q (update_where p f xs) ≡ written p f (find_first q xs)
  find_first-update_where p q f keep [] = refl
  find_first-update_where p q f keep (x ∷ xs) =
      ground (arith, keep x, find_first-update_where p q f keep xs)

  abbrev pub first_of_both : Option A → Option A → Option A
  first_of_both none o = o
  first_of_both (some x) o = some x

  pub find_first-append :
      (q : A → Bool) (xs ys : List A)
      → find_first q (xs ++ ys) ≡ first_of_both (find_first q xs) (find_first q ys)
  find_first-append q [] ys = refl
  find_first-append q (x ∷ xs) ys = ground (arith, find_first-append q xs ys)

-- `x in xs`
abbrev pub contains : String → List String → Bool
contains a = any (λ x. x == a)

-- `s.add(x)`
abbrev pub set_add : String → List String → List String
set_add a xs = if contains a xs then xs else xs ++ a ∷ []

-- `xs | ys`
abbrev pub set_union : List String → List String → List String
set_union xs [] = xs
set_union xs (y ∷ ys) = set_union (set_add y xs) ys

-- `xs & ys`
abbrev pub set_inter : List String → List String → List String
set_inter xs ys = select (λ x. contains x ys) xs

-- `set(xs)` and `dict.fromkeys(xs)`: the distinct elements, in the order of their first places
abbrev pub distinct : List String → List String
distinct = set_union []

module _ (p : String → Bool) where
  pub any-append : (xs ys : List String) → any p (xs ++ ys) ≡ (any p xs || any p ys)
  any-append [] ys = refl
  any-append (x ∷ xs) ys = ground (arith, any-append xs ys)

  -- An element of a set decides a test that it passes.
  pub any_of_contains :
      (a : String) (xs : List String) → contains a xs ≡ true → p a ≡ true → any p xs ≡ true
  any_of_contains a [] h q = ground arith
  any_of_contains a (x ∷ xs) h q = elim (text_cases x a) [
    | inl e ↦ rw e (ground (arith, q))
    | inr e ↦ ground (arith, any_of_contains a xs)
  ]

  pub any-set_add : (a : String) (xs : List String) → any p (set_add a xs) ≡ (any p xs || p a)
  any-set_add a xs = elim (Bool-cases (contains a xs)) [
    | inl e ↦ rw e (elim (Bool-cases (p a)) [
      | inl q ↦ rw (q, any_of_contains a xs e q)
      | inr q ↦ rw q (ground arith)
    ])
    | inr e ↦ rw (e, any-append xs (a ∷ [])) (ground arith)
  ]

  -- A union passes an existential test exactly when one of its sides does.
  pub any-set_union : (xs ys : List String) → any p (set_union xs ys) ≡ (any p xs || any p ys)
  any-set_union xs [] = ground arith
  any-set_union xs (y ∷ ys) = rw (any-set_union (set_add y xs) ys, any-set_add y xs) (ground arith)

  -- An intersection passes a test only if both of its sides do.
  pub any-set_inter :
      (xs ys : List String) → any p (set_inter xs ys) ≡ true → (any p xs ≡ true) × (any p ys ≡ true)
  any-set_inter [] ys h = ground arith
  any-set_inter (x ∷ xs) ys h = elim (Bool-cases (contains x ys)) [
    | inl e ↦ elim (Bool-cases (p x)) [
      | inl q ↦ (rw q, any_of_contains x ys e q)
      | inr q ↦ let (l, r) = any-set_inter xs ys (ground arith) in (ground arith, r)
    ]
    | inr e ↦ let (l, r) = any-set_inter xs ys (ground arith) in (ground arith, r)
  ]

-- Membership after an addition.
pub contains-set_add :
    (a b : String) (xs : List String) → contains a (set_add b xs) ≡ (contains a xs || (b == a))
contains-set_add a b xs = any-set_add (λ x. x == a) b xs

-- every element has the property
abbrev pub All {ℓ κ} : {A : Type ℓ} → (A → Type κ) → List A → Type κ
All P [] = Unit
All P (x ∷ xs) = P x × All P xs

module _ {ℓ} {A : Type ℓ} (P : A → Type 0) where
  pub All-select : (p : A → Bool) (xs : List A) → All P xs → All P (select p xs)
  All-select p [] h = tt
  All-select p (x ∷ xs) (hx, h) = elim (Bool-cases (p x)) [
    | inl e ↦ rw e (hx, All-select p xs h)
    | inr e ↦ rw e (All-select p xs h)
  ]

  pub All-update_where :
      (p : A → Bool) (f : A → A)
      → ((x : A) → P x → p x ≡ true → P (f x))
      → (xs : List A) → All P xs
      → All P (update_where p f xs)
  All-update_where p f new [] h = tt
  All-update_where p f new (x ∷ xs) (hx, h) = elim (Bool-cases (p x)) [
    | inl e ↦ rw e (new x hx e, All-update_where p f new xs h)
    | inr e ↦ rw e (hx, All-update_where p f new xs h)
  ]

  pub All-find_first :
      (p : A → Bool) (xs : List A) {x : A} → All P xs → find_first p xs ≡ some x → P x
  All-find_first p [] h found = absurd (ground arith)
  All-find_first p (y ∷ xs) {x} (hy, h) found = elim (Bool-cases (p y)) [
    | inl e ↦
        let same : some y ≡ some x = ground arith in
        let eq : y ≡ x = ground (arith, same) in rw eq at hy
    | inr e ↦ All-find_first p xs h (ground arith)
  ]
