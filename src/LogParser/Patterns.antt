-- ===== src/LogParser/Patterns.antt =====
-- pkg/logparser/logparser.go: `FilterRegex` and `ToJSON`, over the libraries that they call.
use share_serial.Base.{
  ◌≡◌, refl, Bool, Option, none, some, List, [], ◌∷◌, Text, codes, contains, if◌then◌else◌, arith,
}
use share_serial.LogParser.{LogEntry, filter, containing}

matching : (Text → Bool) → List Text → List Text
matching match_string [] = []
matching match_string (line ∷ lines) =
    let rest = matching match_string lines in if match_string line then line ∷ rest else rest

-- `compile` is `regexp.MustCompile` with the expression's `MatchString`; `none` is its panic.
filter_regex : (Text → Option (Text → Bool)) → List Text → Text → Option (List Text)
unfolding matching
filter_regex compile lines [] = some lines
filter_regex compile lines (c ∷ pattern) = elim (compile (c ∷ pattern)) [
  | none ↦ none
  | some match_string ↦ some (matching match_string lines)
]

-- `marshal` is `json.Marshal`.
unfoldable to_json : (List LogEntry → Text) → List LogEntry → Text
to_json marshal [] = codes "[]"
to_json marshal (e ∷ entries) = marshal (e ∷ entries)

matching-containing :
    (match_string : Text → Bool) (pattern : Text) (lines : List Text)
    → ((line : Text) → match_string line ≡ contains line pattern)
    → matching match_string lines ≡ containing lines pattern
unfolding matching containing
matching-containing match_string pattern [] same = refl
matching-containing match_string pattern (line ∷ lines) same =
    ground (arith, same line, matching-containing match_string pattern lines same)

-- For a pattern that stands for itself, which is to say that it compiles and matches the lines that
-- contain it, `FilterRegex` is `Filter`.
filter_regex-filter :
    (compile : Text → Option (Text → Bool)) (match_string : Text → Bool) (lines : List Text)
    (pattern : Text)
    → compile pattern ≡ some match_string
    → ((line : Text) → match_string line ≡ contains line pattern)
    → filter_regex compile lines pattern ≡ some (filter lines pattern)
unfolding filter_regex filter
filter_regex-filter compile match_string lines [] e same = refl
filter_regex-filter compile match_string lines (c ∷ pattern) e same =
    rw (e, filter_regex, matching-containing match_string (c ∷ pattern) lines same) refl
