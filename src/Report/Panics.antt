-- ===== src/Report/Panics.antt =====
-- cmd/report-generator/main.go: the logs on which `ParseTestLog` panics.
use share_serial.Base.{
  ◌<◌, not, ◌≡◌, ◌≢◌, ◌↔◌, refl, sym, ◌∙◌, inl, inr, Bool, true, false, ◌&&◌, ◌||◌, none, List, [],
  ◌∷◌, Text, has_prefix, length, Bool-cases, Option-cases, if◌then◌else◌, arith,
}
use share_serial.Report.{
  empty_suite, CaseStatus, passed, failed, skipped, TestCase, TestSuite, finish_last, case_ends,
  parse_line, parse_lines, extract_duration,
}
use share_serial.Report.Tallies.{
  run_mark, pass_mark, fail_mark, skip_mark, parse_line-Counts, parse_lines-cons,
}

-- Whether a result line comes before any test has begun.
pub result_first : List Text → Bool
result_first [] = false
result_first (line ∷ lines) =
    let rest = result_first lines in
    if has_prefix line run_mark
    then false
    else (has_prefix line pass_mark || has_prefix line fail_mark || has_prefix line skip_mark)
      || rest

finish_last-ne-none :
    (st : CaseStatus) (d : Text) (cs : List TestCase) → 0 < length cs → finish_last st d cs ≢ none
unfolding finish_last
finish_last-ne-none st d [] h e = absurd (omega arith)
finish_last-ne-none st d (c ∷ []) h e = cc
finish_last-ne-none st d (c ∷ b ∷ cs) h e =
    let more = finish_last-ne-none st d (b ∷ cs) (omega arith) in ground arith

case_ends-ne-none :
    (st : CaseStatus) (s : TestSuite) (line : Text)
    → 0 < length s.test_cases
    → case_ends st s line ≢ none
unfolding case_ends
case_ends-ne-none st s line h e =
    let more = finish_last-ne-none st (extract_duration line) s.test_cases h in ground arith

case_ends-none :
    (st : CaseStatus) (s : TestSuite) (line : Text)
    → length s.test_cases ≡ 0
    → case_ends st s line ≡ none
unfolding case_ends
case_ends-none st s line h = rw (empty s.test_cases h, finish_last) refl
  where
    empty : (cs : List TestCase) → length cs ≡ 0 → cs ≡ []
    empty [] h' = refl
    empty (c ∷ cs) h' = absurd (omega arith)

abbrev ends_case : Text → Bool
ends_case line = has_prefix line pass_mark || has_prefix line fail_mark || has_prefix line skip_mark

parse_line-ne-none :
    (s : TestSuite) (line : Text) → 0 < length s.test_cases → parse_line s line ≢ none
unfolding parse_line
parse_line-ne-none s line h e = ground (
  arith,
  case_ends-ne-none passed s line,
  case_ends-ne-none failed s line,
  case_ends-ne-none skipped s line,
)

parse_line_began :
    (s : TestSuite) (line : Text)
    → length s.test_cases ≡ 0
    → (parse_line s line ≡ none) ↔ ((not (has_prefix line run_mark) && ends_case line) ≡ true)
unfolding parse_line
parse_line_began s line h =
    let p = case_ends-none passed s line h in
    let f = case_ends-none failed s line h in
    let k = case_ends-none skipped s line h in (λ e. ground arith, λ e. ground arith)

parse_lines-ne-none :
    (s : TestSuite) (lines : List Text) → 0 < length s.test_cases → parse_lines s lines ≢ none
unfolding parse_lines
parse_lines-ne-none s [] h e = cc
parse_lines-ne-none s (line ∷ lines) h e = elim (Option-cases (parse_line s line)) [
  | inl f ↦ parse_line-ne-none s line h f
  | inr (t, f) ↦
      let one = parse_line-Counts s t line f in
      parse_lines-ne-none t lines (omega (arith, one.cases))
        (sym (parse_lines-cons s t line lines f) ∙ e)
]

parse_lines_empty :
    (s : TestSuite) (lines : List Text)
    → length s.test_cases ≡ 0
    → (parse_lines s lines ≡ none) ↔ (result_first lines ≡ true)
unfolding result_first
parse_lines_empty s [] h = unfold parse_lines in (λ e. cc, λ e. cc)
parse_lines_empty s (line ∷ lines) h = elim (Option-cases (parse_line s line)) [
  | inl f ↦
      let at = (parse_line_began s line h).0 f in
      let panic : parse_lines s (line ∷ lines) ≡ none =
        unfold parse_lines in rw (f, parse_lines) refl in
      (λ e. ground arith, λ e. panic)
  | inr (t, f) ↦
      let one = parse_line-Counts s t line f in
      let next = parse_lines-cons s t line lines f in
      elim (Bool-cases (has_prefix line run_mark)) [
        | inl r ↦
            let began : 0 < length t.test_cases = ground (arith, one, r) in
            (λ e. absurd (parse_lines-ne-none t lines began (sym next ∙ e)), λ e. ground arith)
        | inr r ↦
            let (to, from) = parse_lines_empty t lines (ground (arith, one, r)) in
            let quiet : ends_case line ≡ false = ground (arith, parse_line_began s line h) in
            (λ e. rw (r, quiet) (to (sym next ∙ e)), λ e. next ∙ from (ground arith))
      ]
]

-- `ParseTestLog` panics exactly on the logs in which a result line comes before any `=== RUN`.
pub parse_lines_panics :
    (package_name : Text) (lines : List Text)
    → (parse_lines (empty_suite package_name) lines ≡ none) ↔ (result_first lines ≡ true)
unfolding empty_suite
parse_lines_panics package_name lines = parse_lines_empty (empty_suite package_name) lines refl
