-- ===== src/LogParser/Filters.antt =====
-- pkg/logparser/logparser.go: what the filters keep.
use share_serial.Base.{
  ℕ, suc, ◌+◌, ◌<◌, ◌≡◌, refl, ap, inl, inr, none, some, List, [], ◌∷◌, ◌++◌, append-nil, Text,
  length, take, drop, length-take, take-append-drop, min, pos, leb, if◌then◌else◌, Option-cases,
  arith, Bool-cases,
}
use share_serial.LogParser.{
  parse_line, parse_lines, raw_lines, ClockTime, seconds, line_time, in_range, filter_time_range,
  limit_lines,
}

-- `ToText` gives back the lines that `ParseLines` was given: no line is lost, and none is changed.
raw_lines-parse_lines : (lines : List Text) → raw_lines (parse_lines lines) ≡ lines
unfolding raw_lines parse_lines parse_line
raw_lines-parse_lines [] = refl
raw_lines-parse_lines (line ∷ lines) = ap (◌∷◌ line) (raw_lines-parse_lines lines)

limit_lines-take :
    (lines : List Text) (n : ℕ)
    → limit_lines lines (pos (suc n))
      ≡ (if leb (length lines) (suc n) then lines else take (suc n) lines)
unfolding limit_lines
limit_lines-take lines n = ground arith

-- With a positive limit, `LimitLines` keeps a first part of the lines, with as many lines as the limit
-- says, or all if there are fewer.
limit_lines_lem :
    (lines : List Text) (n : ℕ)
    → let kept = limit_lines lines (pos (suc n)) in
      (length kept ≡ min (suc n) (length lines)) × (rest : List Text) × (kept ++ rest ≡ lines)
limit_lines_lem lines n = elim (Bool-cases (leb (length lines) (suc n))) [
  | inl few ↦ rw (limit_lines-take, few) (ground arith, [], append-nil lines)
  | inr many ↦
      rw (limit_lines-take, many)
        (length-take (suc n) lines, drop (suc n) lines, take-append-drop (suc n) lines)
]

-- The lines with a time.
pub timed : List Text → List Text
timed [] = []
timed (line ∷ lines) =
    let rest = timed lines in elim (line_time line) [ none ↦ rest | some t ↦ line ∷ rest ]

-- Of a range across midnight, from `late` to `early`, and the range between, from a second after
-- `early` to a second before `late`, each line with a time is kept by exactly one: together they keep
-- as many lines as have a time.
pub filter_time_range_split :
    (lines : List Text) (late early after before : ClockTime)
    → seconds after ≡ seconds early + 1
    → seconds before + 1 ≡ seconds late
    → seconds early + 1 < seconds late
    → length (filter_time_range lines late early) + length (filter_time_range lines after before)
      ≡ length (timed lines)
unfolding filter_time_range timed
filter_time_range_split [] late early after before a b c = refl
filter_time_range_split (line ∷ lines) late early after before a b c =
    elim (Option-cases (line_time line)) [
      | inl e ↦ ground (arith, filter_time_range_split lines late early after before a b c)
      | inr (t, e) ↦
          unfold in_range in
          ground (arith, filter_time_range_split lines late early after before a b c)
    ]
