-- ===== src/Report/Pages/Tables/Cells.antt =====
-- cmd/report-generator/main.go: the parts of a line that a cell can hold are held by a cell, too.
use share_serial.Base.{
  ℕ, zero, suc, ◌+◌, ◌-◌, ◌≡◌, refl, false, Option, none, some, [], ◌∷◌, Text, member, ltb,
  if_cases, arith, take, drop, has_prefix, after_prefix, trim_prefix, index,
}
use share_serial.Report.{between, extract_duration}
use share_serial.Report.Pages.Tables.Rows.{Clean}

-- A text with no bar and no NUL.
abbrev pub Plain : Text → Type 0
Plain s = (member 0 s ≡ false) × (member b'|' s ≡ false)

member-take : (c n : ℕ) (s : Text) → member c s ≡ false → member c (take n s) ≡ false
member-take c zero s h = refl
member-take c (suc n) [] h = refl
member-take c (suc n) (d ∷ s) h = ground (arith, member-take c n s)

member-drop : (c n : ℕ) (s : Text) → member c s ≡ false → member c (drop n s) ≡ false
member-drop c zero s h = h
member-drop c (suc n) [] h = refl
member-drop c (suc n) (d ∷ s) h = member-drop c n s (ground arith)

member-after_prefix :
    (c : ℕ) (s p : Text) → member c s ≡ false → member c (after_prefix s p) ≡ false
unfolding after_prefix
member-after_prefix c s [] h = h
member-after_prefix c [] (d ∷ p) h = refl
member-after_prefix c (b ∷ s) (d ∷ p) h = member-after_prefix c s p (ground arith)

member-trim_prefix : (c : ℕ) (s p : Text) → member c s ≡ false → member c (trim_prefix s p) ≡ false
unfolding trim_prefix
member-trim_prefix c s p h =
    if_cases (λ (t : Text). member c t ≡ false) (has_prefix s p) _ _
      (λ _. member-after_prefix c s p h) (λ _. h)

pub trim_prefix-Clean : (s p : Text) → Clean s → Clean (trim_prefix s p)
trim_prefix-Clean s p h =
    (member-trim_prefix 0 s p h.0, member-trim_prefix 10 s p h.1, member-trim_prefix b'|' s p h.2)

part-Clean : (n k : ℕ) (s : Text) → Clean s → Clean (take n (drop k s))
part-Clean n k s h = (
  member-take 0 n (drop k s) (member-drop 0 k s h.0),
  member-take 10 n (drop k s) (member-drop 10 k s h.1),
  member-take b'|' n (drop k s) (member-drop b'|' k s h.2),
)

between-Clean : (s : Text) (i j : Option ℕ) → Clean s → Clean (between s i j)
unfolding between
between-Clean s none j h = (refl, refl, refl)
between-Clean s (some i) none h = (refl, refl, refl)
between-Clean s (some i) (some j) h =
    if_cases Clean (ltb i j) _ _ (λ _. part-Clean (j - (i + 1)) (i + 1) s h)
      (λ _. (refl, refl, refl))

pub extract_duration-Clean : (line : Text) → Clean line → Clean (extract_duration line)
unfolding extract_duration
extract_duration-Clean line h = between-Clean line (index b'(' line) (index b')' line) h
