-- ===== src/Prelude/Text.antt =====
-- The string methods that the program calls, over the characters of a text. Case and white space
-- are those of ASCII, which the identifiers, names and schemes of the program are written in.
use Prim.Native.Nat.{ℕ, ◌-◌}
use Prim.Native.Char.{Char, code}
use Prim.Native.String
use Prim.Native.String.{String, [], ◌∷◌}
use mathlib.Core.List.{List}
use mathlib.Core.Bool.{Bool, false, ◌&&◌, ◌||◌}
use mathlib.Core.Option.{Option, none, some}
use mathlib.Core.Path.{◌≡◌, refl}
use native.Mathlib.Omega.{arith}
use text.Mathlib.Text.{◌==◌ as text_eq}
use text.Mathlib.TextLemmas.{nil-append, cons-append}
use agentid_mcp_gateway.Prelude.Tests.{if◌then◌else◌, eqb, leb, is_some}

-- `s + t`, and the f-strings that put texts side by side
infixr 65 ◌+++◌
abbrev pub ◌+++◌ : String → String → String
s +++ t = String.◌++◌ s t

abbrev pub is_space : ℕ → Bool
is_space c = eqb c 32 || (leb 9 c && leb c 13)

abbrev pub lower_char : Char → Char
lower_char c =
    if leb b'A' (code c) && leb (code c) b'Z'
    then String.char_at "abcdefghijklmnopqrstuvwxyz" (code c - b'A')
    else c

-- `s.lower()`
unfoldable pub lower : String → String
lower [] = []
lower (c ∷ s) = lower_char c ∷ lower s

-- `s.lstrip()`
unfoldable pub strip_left : String → String
strip_left [] = []
strip_left (c ∷ s) = if is_space (code c) then strip_left s else c ∷ s

abbrev cons_unless_blank : Char → String → String
cons_unless_blank c [] = if is_space (code c) then [] else c ∷ []
cons_unless_blank c (d ∷ s) = c ∷ d ∷ s

-- `s.rstrip()`
unfoldable pub strip_right : String → String
strip_right [] = []
strip_right (c ∷ s) = cons_unless_blank c (strip_right s)

abbrev cons_unless_last : ℕ → Char → String → String
cons_unless_last ch c [] = if eqb (code c) ch then [] else c ∷ []
cons_unless_last ch c (d ∷ s) = c ∷ d ∷ s

-- `s.rstrip(ch)`, for one character
unfoldable pub strip_right_of : ℕ → String → String
strip_right_of ch [] = []
strip_right_of ch (c ∷ s) = cons_unless_last ch c (strip_right_of ch s)

-- `s.strip()`
unfoldable pub strip : String → String
unfolding strip_left strip_right
strip s = strip_right (strip_left s)

abbrev push_front : Char → List String → List String
push_front c List.[] = List.◌∷◌ (c ∷ []) List.[]
push_front c (List.◌∷◌ p ps) = List.◌∷◌ (c ∷ p) ps

-- `s.split(sep)`, for a separator of one character
unfoldable pub split : ℕ → String → List String
split sep [] = List.◌∷◌ [] List.[]
split sep (c ∷ s) =
    let rest = split sep s in if eqb (code c) sep then List.◌∷◌ [] rest else push_front c rest

-- `s.partition(sep)` without the middle part: the text before the first separator, and after it
unfoldable pub partition : ℕ → String → String × String
partition sep [] = ([], [])
partition sep (c ∷ s) =
    let (before, after) = partition sep s in
    if eqb (code c) sep then ([], s) else (c ∷ before, after)

abbrev drop_blank : List String → List String
drop_blank List.[] = List.[]
drop_blank (List.◌∷◌ [] ps) = drop_blank ps
drop_blank (List.◌∷◌ (c ∷ s) ps) = List.◌∷◌ (c ∷ s) (drop_blank ps)

split_spaces : String → List String
split_spaces [] = List.◌∷◌ [] List.[]
split_spaces (c ∷ s) =
    let rest = split_spaces s in if is_space (code c) then List.◌∷◌ [] rest else push_front c rest

-- `s.split()`: the words between runs of white space
unfoldable pub words : String → List String
unfolding split_spaces
words s = drop_blank (split_spaces s)

-- `sep.join(parts)`
unfoldable pub join : String → List String → String
join sep List.[] = []
join sep (List.◌∷◌ p List.[]) = p
join sep (List.◌∷◌ p (List.◌∷◌ q ps)) = p +++ sep +++ join sep (List.◌∷◌ q ps)

-- `s[len(prefix):]` where `s.startswith(prefix)`
unfoldable pub strip_prefix : String → String → Option String
strip_prefix [] s = some s
strip_prefix (p ∷ ps) [] = none
strip_prefix (p ∷ ps) (c ∷ s) =
    let rest = strip_prefix ps s in if eqb (code p) (code c) then rest else none

-- `s.startswith(prefix)`
abbrev pub has_prefix : String → String → Bool
has_prefix p s = is_some (strip_prefix p s)

-- `q in s`
unfoldable pub has_part : String → String → Bool
has_part q [] = text_eq q []
has_part q (c ∷ s) = has_prefix q (c ∷ s) || has_part q s

-- `ch in s`, for one character
unfoldable pub has_char : ℕ → String → Bool
has_char ch [] = false
has_char ch (c ∷ s) = eqb (code c) ch || has_char ch s

-- A prefix that was put in front is found, and what follows it comes back.
pub strip_prefix-append : (p s : String) → strip_prefix p (p +++ s) ≡ some s
unfolding strip_prefix
strip_prefix-append [] s = rw nil-append refl
strip_prefix-append (c ∷ p) s = rw cons-append (ground (arith, strip_prefix-append p s))

-- A text without the separator, the separator and any rest are taken apart at that place.
pub partition-append :
    (sep : Char) (s t : String)
    → has_char (code sep) s ≡ false
    → partition (code sep) (s +++ (sep ∷ t)) ≡ (s, t)
unfolding partition has_char
partition-append sep [] t h = rw nil-append (ground arith)
partition-append sep (c ∷ s) t h = rw cons-append (ground (arith, partition-append sep s t))
