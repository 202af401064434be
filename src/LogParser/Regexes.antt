-- ===== src/LogParser/Regexes.antt =====
-- pkg/logparser/logparser.go: the two regular expressions of `NewParser`, written out.
use share_serial.Base.{
  ℕ, Bool, ◌&&◌, ◌||◌, Option, none, some, List, [], ◌∷◌, ◌++◌, Text, codes, has_prefix,
  after_prefix, ◌==◌, leb, ltb, length, if◌then◌else◌,
}

-- `\d`
is_digit : ℕ → Bool
is_digit c = leb b'0' c && leb c b'9'

-- `\d*`: the digits in front, and what follows them.
span_digits : Text → Text × Text
unfolding is_digit
span_digits [] = ([], [])
span_digits (c ∷ s) =
    let (ds, rest) = span_digits s in if is_digit c then (c ∷ ds, rest) else ([], c ∷ s)

-- `\d{2}:\d{2}:\d{2}`: its eight characters, and what follows them.
clock : Text → Option (Text × Text)
unfolding is_digit
clock (a ∷ b ∷ p ∷ c ∷ d ∷ q ∷ e ∷ f ∷ s) =
    if is_digit a
      && is_digit b
      && p == b':'
      && is_digit c
      && is_digit d
      && q == b':'
      && is_digit e
      && is_digit f
    then some (a ∷ b ∷ p ∷ c ∷ d ∷ q ∷ e ∷ f ∷ [], s)
    else none
clock _ = none

-- `(\.\d+)?\]` behind the time `t`, which gives the group.
time_end : Text → Text → Option Text
unfolding span_digits
time_end t [] = none
time_end t (c ∷ s) =
    let (ds, rest) = span_digits s in
    if c == b']'
    then some t
    else if c == b'.' && ltb 0 (length ds) && has_prefix rest (b']' ∷ [])
    then some (t ++ b'.' ∷ ds)
    else none

-- `timeRegex`: the leftmost match's group.
unfoldable pub find_time : Text → Option Text
unfolding clock time_end
find_time [] = none
find_time (c ∷ s) =
    let rest = find_time s in
    let here : Option Text = elim (clock s) [ none ↦ none | some (t, after) ↦ time_end t after ] in
    if c == b'[' then elim here [ none ↦ rest | some t ↦ some t ] else rest

-- `\s`
is_blank : ℕ → Bool
is_blank c = c == b' ' || c == 9 || c == 10 || c == 12 || c == 13

pub skip_blanks : Text → Text
unfolding is_blank
skip_blanks [] = []
skip_blanks (c ∷ s) = let rest = skip_blanks s in if is_blank c then rest else c ∷ s

abbrev pub level_names : List Text
level_names =
    codes "INFO"
    ∷ codes "WARN"
    ∷ codes "WARNING"
    ∷ codes "ERROR"
    ∷ codes "DEBUG"
    ∷ codes "FATAL"
    ∷ codes "TRACE"
    ∷ []

-- `(INFO|…)\s*:` at the front of a text: the first name that matches.
unfoldable pub level_at : List Text → Text → Option Text
unfolding skip_blanks has_prefix after_prefix
level_at [] s = none
level_at (l ∷ ls) s =
    let rest = level_at ls s in
    if has_prefix s l && has_prefix (skip_blanks (after_prefix s l)) (b':' ∷ [])
    then some l
    else rest

-- `levelRegex`: the leftmost match's group.
unfoldable pub find_level : Text → Option Text
unfolding level_at skip_blanks
find_level [] = none
find_level (c ∷ s) =
    let rest = find_level s in
    if c == b']'
    then elim (level_at level_names (skip_blanks s)) [ none ↦ rest | some l ↦ some l ]
    else rest
