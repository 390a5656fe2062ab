-- ===== src/Prelude/TextOrder.antt =====
-- Python's order of texts, which is that of their code points.
use Prim.Native.Nat.{ℕ, Ordering, compare as compare_ℕ}
use Prim.Native.Char.{code}
use Prim.Native.String.compare
use Prim.Native.String.{String, [], ◌∷◌, compare, then}
use mathlib.Core.Path.{◌≡◌, refl, sym, ◌∙◌, ap}
use mathlib.Core.Bool.{Bool, true, false}
use native.Mathlib.Omega.{arith}

abbrev at_most : Ordering → Bool
at_most Ordering.gt = false
at_most _ = true

abbrev pub text_leb : String → String → Bool
text_leb s t = elim (compare s t) [ Ordering.gt ↦ false | _ ↦ true ]

abbrev flip : Ordering → Ordering
flip Ordering.lt = Ordering.gt
flip Ordering.eq = Ordering.eq
flip Ordering.gt = Ordering.lt

compare_ℕ-flip : (a b : ℕ) → compare_ℕ b a ≡ flip (compare_ℕ a b)
compare_ℕ-flip a b = ground arith

flip-then : (o p : Ordering) → then (flip o) (flip p) ≡ flip (then o p)
flip-then Ordering.lt p = refl
flip-then Ordering.eq p = refl
flip-then Ordering.gt p = refl

compare-flip : (s t : String) → compare t s ≡ flip (compare s t)
compare-flip [] [] = compare.nil-nil ∙ ap flip (sym compare.nil-nil)
compare-flip [] (d ∷ t) = compare.cons-nil d t ∙ ap flip (sym (compare.nil-cons d t))
compare-flip (c ∷ s) [] = compare.nil-cons c s ∙ ap flip (sym (compare.cons-nil c s))
compare-flip (c ∷ s) (d ∷ t) =
    compare.cons-cons d c t s
    ∙ rw (compare_ℕ-flip (code c) (code d), compare-flip s t)
        (flip-then (compare_ℕ (code c) (code d)) (compare s t)
          ∙ ap flip (sym (compare.cons-cons c d s t)))

-- Of two texts one is at most the other.
pub text_leb-total : (s t : String) → text_leb s t ≡ false → text_leb t s ≡ true
text_leb-total s t h = ground (arith, compare-flip s t)
