-- ===== src/Base/Search.antt =====
-- The functions of Go's package strings that the program uses.
use Prim.Native.Nat.{ℕ, zero, suc, ◌/◌, ◌%◌, ◌+◌, ◌<◌}
use mathlib.Core.Path.{◌≡◌, refl}
use mathlib.Core.Logic.{◌⊎◌}
use mathlib.Core.Bool.{Bool, true, false, ◌&&◌, ◌||◌}
use mathlib.Core.Option.{Option, none, some}
use mathlib.Core.List.{[], ◌∷◌, ◌++◌}
use native.Mathlib.Omega.{arith}
use share_serial.Base.Tests.{if_cases, ◌==◌, if◌then◌else◌, ltb, leb}
use share_serial.Base.Lists.{length, member}
use share_serial.Base.Strings.{Text, has_prefix}

-- `strings.TrimPrefix(s, p)`, where `p` is a prefix.
unfoldable pub after_prefix : Text → Text → Text
after_prefix s [] = s
after_prefix [] (d ∷ p) = []
after_prefix (c ∷ s) (d ∷ p) = after_prefix s p

-- `strings.TrimPrefix(s, p)`
unfoldable pub trim_prefix : Text → Text → Text
unfolding after_prefix
trim_prefix s p = if has_prefix s p then after_prefix s p else s

-- `strings.Contains(s, p)`
unfoldable pub contains : Text → Text → Bool
contains [] p = has_prefix [] p
contains (c ∷ s) p = has_prefix (c ∷ s) p || contains s p

-- `strings.SplitN(s, sep, 2)`: what stands before and after the first `sep`, if there is one.
unfoldable pub cut : Text → Text → Option (Text × Text)
cut [] sep = none
cut (c ∷ s) sep =
    let rest = cut s sep in
    if has_prefix (c ∷ s) sep
    then some ([], after_prefix (c ∷ s) sep)
    else elim rest [ none ↦ none | some (before, behind) ↦ some (c ∷ before, behind) ]

-- `strings.Index(s, c)` for one byte.
unfoldable pub index : ℕ → Text → Option ℕ
index c [] = none
index c (d ∷ s) =
    let rest = index c s in
    if d == c then some 0 else elim rest [ none ↦ none | some i ↦ some (suc i) ]

-- The code points beyond ASCII that `unicode.IsSpace` accepts.
unfoldable pub is_wide_space : ℕ → Bool
is_wide_space c =
    c == 133
    || c == 160
    || c == 5760
    || (leb 8192 c && leb c 8202)
    || c == 8232
    || c == 8233
    || c == 8239
    || c == 8287
    || c == 12288

-- `unicode.IsSpace`
unfoldable pub is_space : ℕ → Bool
unfolding is_wide_space
is_space c = c == b' ' || c == 9 || c == 10 || c == 11 || c == 12 || c == 13 || is_wide_space c

unfoldable pub trim_left : Text → Text
unfolding is_space
trim_left [] = []
trim_left (c ∷ s) = let rest = trim_left s in if is_space c then rest else c ∷ s

unfoldable pub trim_right : Text → Text
unfolding is_space
trim_right [] = []
trim_right (c ∷ s) =
    let rest = trim_right s in
    elim rest [ [] ↦ if is_space c then [] else c ∷ [] | d ∷ t ↦ c ∷ d ∷ t ]

-- `strings.TrimSpace(s)`, for a text of code points.
unfoldable pub trim_space : Text → Text
unfolding trim_left trim_right
trim_space s = trim_right (trim_left s)

-- A byte that does not stand in a text.
abbrev pub Lacks : ℕ → Text → Type 0
Lacks c [] = Unit {0}
Lacks c (d ∷ s) = ((d == c) ≡ false) × Lacks c s

pub Lacks-member : (c : ℕ) (s : Text) → member c s ≡ false → Lacks c s
Lacks-member c [] h = tt
Lacks-member c (d ∷ s) h = ground (arith, Lacks-member c s)

pub Lacks-append : (c : ℕ) (s t : Text) → Lacks c s → Lacks c t → Lacks c (s ++ t)
Lacks-append c [] t h k = k
Lacks-append c (d ∷ s) t h k = (h.0, Lacks-append c s t h.1 k)

pub index-append : (c : ℕ) (s t : Text) → Lacks c s → index c (s ++ (c ∷ t)) ≡ some (length s)
unfolding index
index-append c [] t h = ground arith
index-append c (d ∷ s) t h = ground (arith, index-append c s t h.1)

-- Whether one text can start with both.
abbrev pub agree : Text → Text → Bool
agree [] q = true
agree (c ∷ p) [] = true
agree (c ∷ p) (d ∷ q) = c == d && agree p q

pub has_prefix-apart :
    (s p q : Text) → agree p q ≡ false → (has_prefix s p && has_prefix s q) ≡ false
unfolding has_prefix
has_prefix-apart s [] q h = cc
has_prefix-apart s (c ∷ p) [] h = cc
has_prefix-apart [] (c ∷ p) (d ∷ q) h = refl
has_prefix-apart (b ∷ s) (c ∷ p) (d ∷ q) h = ground (arith, has_prefix-apart s p q)

pub decimal_from : ℕ → ℕ → Text → Text
decimal_from zero n s = s
decimal_from (suc f) n s =
    let rest = decimal_from f (n / 10) ((b'0' + n % 10) ∷ s) in
    if ltb n 10 then (b'0' + n) ∷ s else rest

-- `fmt.Sprintf("%d", n)`
abbrev pub decimal : ℕ → Text
decimal n = decimal_from (suc n) n []

-- A byte that is no digit does not stand in a number.
member-decimal_from :
    (c f n : ℕ) (s : Text)
    → (c < b'0') ⊎ (b'9' < c)
    → member c s ≡ false
    → member c (decimal_from f n s) ≡ false
unfolding decimal_from
member-decimal_from c zero n s lt h = h
member-decimal_from c (suc f) n s lt h =
    if_cases (λ (t : Text). member c t ≡ false) (ltb n 10) _ _ (λ small. ground arith)
      (λ _. member-decimal_from c f (n / 10) ((b'0' + n % 10) ∷ s) lt (ground arith))

pub member-decimal : (c n : ℕ) → (c < b'0') ⊎ (b'9' < c) → member c (decimal n) ≡ false
member-decimal c n lt = member-decimal_from c (suc n) n [] lt refl
