-- ===== src/LogParser/Counts.antt =====
-- pkg/logparser/logparser.go: `Stats` counts what the filters by level keep.
use share_serial.Base.{
  true, false, none, some, Option, Bool, ◌==◌, suc, ap, sym, ℕ, ◌+◌, ◌≡◌, refl, false, List, [],
  ◌∷◌, Text, codes, text_eq, text_eq_iff, length, Dict, insert, lookup-insert, if◌then◌else◌, arith,
  ◌≢◌, ◌∙◌, lookup, text_ne,
}
use share_serial.LogParser.Regexes.{level_names, level_at, find_level, skip_blanks}
use share_serial.LogParser.{
  LogEntry, level_of, filter_by_level, count, count_levels, parse_lines, stats, parse_line,
}

count-insert :
    (k l : Text) (n : ℕ) (d : Dict ℕ)
    → count l (insert k n d) ≡ (if text_eq k l then n else count l d)
unfolding count
count-insert k l n d = ground (arith, lookup-insert k l n d, text_eq_iff k l)

count-count_levels :
    (l : Text) (es : List LogEntry) (d : Dict ℕ)
    → count l (count_levels d es) ≡ count l d + length (filter_by_level es l)
unfolding count_levels filter_by_level
count-count_levels l [] d = omega arith
count-count_levels l (e ∷ es) d =
    let n = count e.level d + 1 in
    ground (
      arith,
      count-count_levels l es (insert e.level n d),
      count-insert e.level l n d,
      text_eq_iff e.level l,
    )

-- No level is spelt like the key of the total.
IsKnown : Option Text → Type 0
IsKnown o = text_eq (level_of o) (codes "total") ≡ false

AllKnown : List Text → Type 0
AllKnown [] = Unit {0}
AllKnown (l ∷ ls) = IsKnown (some l) × AllKnown ls

level_at-IsKnown : (ls : List Text) (s : Text) → AllKnown ls → IsKnown (level_at ls s)
unfolding level_at AllKnown IsKnown level_of text_eq
level_at-IsKnown [] s h = refl
level_at-IsKnown (l ∷ ls) s h = ground (arith, level_at-IsKnown ls s h.1)

names_known : AllKnown level_names
unfolding AllKnown IsKnown level_of text_eq
names_known = (refl, (refl, (refl, (refl, (refl, (refl, (refl, tt)))))))

first-IsKnown :
    (found : Bool) (here later : Option Text)
    → IsKnown here
    → IsKnown later
    → IsKnown (if found then elim here [ none ↦ later | some l ↦ some l ] else later)
first-IsKnown false here later h k = k
first-IsKnown true none later h k = k
first-IsKnown true (some l) later h k = h

find_level-IsKnown : (s : Text) → IsKnown (find_level s)
unfolding find_level IsKnown level_of text_eq
find_level-IsKnown [] = refl
find_level-IsKnown (c ∷ s) =
    first-IsKnown (c == b']') (level_at level_names (skip_blanks s)) (find_level s)
      (level_at-IsKnown level_names (skip_blanks s) names_known) (find_level-IsKnown s)

no_total : (lines : List Text) → filter_by_level (parse_lines lines) (codes "total") ≡ []
unfolding parse_lines filter_by_level IsKnown parse_line
no_total [] = refl
no_total (line ∷ lines) = rw (find_level-IsKnown line) (no_total lines)

count_total : (n : ℕ) → count (codes "total") (insert (codes "total") n []) ≡ n
unfolding count insert lookup text_eq
count_total n = refl

count_other : (l : Text) (n : ℕ) → l ≢ codes "total" → count l (insert (codes "total") n []) ≡ 0
unfolding count insert lookup text_eq
count_other l n ne = rw (text_ne (codes "total") l (λ e. ne (sym e))) refl

length-parse_lines : (lines : List Text) → length (parse_lines lines) ≡ length lines
unfolding parse_lines
length-parse_lines [] = refl
length-parse_lines (line ∷ lines) = ap suc (length-parse_lines lines)

-- In the statistics of parsed lines the total is the number of lines, and every level, which is not
-- the key of the total, has the number of entries that `FilterByLevel` keeps for it.
pub stats-parse_lines :
    (lines : List Text) (l : Text)
    → l ≢ codes "total"
    → let counted = stats (parse_lines lines) in
      (count (codes "total") counted ≡ length lines)
      × (count l counted ≡ length (filter_by_level (parse_lines lines) l))
unfolding stats
stats-parse_lines lines l ne =
    let es = parse_lines lines in
    let d = insert (codes "total") (length es) [] in
    (
      count-count_levels (codes "total") es d
          ∙ rw (no_total lines, count_total, length-parse_lines) (omega arith),
      count-count_levels l es d ∙ rw (count_other l (length es) ne) (omega arith),
    )
