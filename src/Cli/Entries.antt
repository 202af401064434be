-- ===== src/Cli/Entries.antt =====
-- internal/cli/cli.go: the parts of a log line that the JSON format of `log` gives. The
-- proofs are in the module below this one.
pub mod Parts
use share_serial.Base.{
  after_prefix, ◌&&◌, ℕ, ◌-◌, ◌≡◌, refl, ap, sym, ◌∙◌, false, none, some, [], ◌∷◌, ◌++◌, Text,
  codes, has_prefix, cut, index, trim_space, trim_left, trim_right, is_space, take, drop, length,
  ◌==◌, if◌then◌else◌, Lacks, index-append, take-length_append, arith, append_assoc,
}

-- `strings.Trim(s, " ")`
unfoldable pub trim_blanks_left : Text → Text
trim_blanks_left [] = []
trim_blanks_left (c ∷ s) = let rest = trim_blanks_left s in if c == b' ' then rest else c ∷ s

unfoldable pub trim_blanks_right : Text → Text
trim_blanks_right [] = []
trim_blanks_right (c ∷ s) =
    let rest = trim_blanks_right s in
    elim rest [ [] ↦ if c == b' ' then [] else c ∷ [] | d ∷ t ↦ c ∷ d ∷ t ]

unfoldable pub trim_blanks : Text → Text
trim_blanks s = trim_blanks_right (trim_blanks_left s)

pub extract_timestamp : Text → Text
unfolding has_prefix index
extract_timestamp line =
    if has_prefix line (codes "[")
    then elim (index b']' line) [
      | none ↦ []
      | some end ↦ trim_blanks (take (end - 1) (drop 1 line))
    ]
    else []

-- The level in what stands behind the first bracket.
pub level_in : Text → Text
unfolding cut trim_space
level_in part = elim (cut part (codes ":")) [
  | none ↦ codes "INFO"
  | some (level, behind) ↦ trim_space level
]

pub extract_level : Text → Text
unfolding cut trim_space level_in
extract_level line = elim (cut line (codes "]")) [
  | none ↦ codes "INFO"
  | some (before, behind) ↦ level_in (trim_space behind)
]

pub extract_message : Text → Text
unfolding cut
extract_message line = elim (cut line (codes ": ")) [ none ↦ line | some (before, m) ↦ m ]

pub record Entry : Type 0 where
  pub timestamp : Text
  pub level : Text
  pub message : Text
  pub raw : Text

unfoldable pub entry_of : Text → Entry
unfolding extract_timestamp extract_level extract_message
entry_of line = record {
  timestamp = extract_timestamp line;
  level = extract_level line;
  message = extract_message line;
  raw = line;
}
