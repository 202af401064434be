-- ===== src/Report/Tallies.antt =====
-- cmd/report-generator/main.go: what `ParseTestLog` counts.
use share_serial.Base.{
  trim_prefix, subst, ℕ, ◌+◌, ◌≡◌, refl, sym, ◌∙◌, inl, inr, Bool, some, List, [], ◌∷◌, Text, codes,
  has_prefix, has_prefix-apart, length, length-append, Option-cases, if◌then◌else◌, arith, subst,
}
use share_serial.Report.{
  CaseStatus, running, passed, failed, skipped, TestCase, TestSuite, finish_last, counted,
  case_begins, case_ends, suite_ends, parse_line, parse_lines, extract_duration,
}

abbrev pub run_mark : Text
run_mark = codes "=== RUN"

abbrev pub pass_mark : Text
pass_mark = codes "--- PASS"

abbrev pub fail_mark : Text
fail_mark = codes "--- FAIL"

abbrev pub skip_mark : Text
skip_mark = codes "--- SKIP"

abbrev pub one_if : Bool → ℕ
one_if b = if b then 1 else 0

-- How many lines start with a mark.
pub starting : Text → List Text → ℕ
starting mark [] = 0
starting mark (line ∷ lines) = one_if (has_prefix line mark) + starting mark lines

length-finish_last :
    (st : CaseStatus) (d : Text) (cs fs : List TestCase)
    → finish_last st d cs ≡ some fs
    → length fs ≡ length cs
unfolding finish_last
length-finish_last st d [] fs e = cc
length-finish_last st d (c ∷ []) fs e = ground arith
length-finish_last st d (c ∷ e ∷ cs) fs h = elim (Option-cases (finish_last st d (e ∷ cs))) [
  | inl f ↦ ground (arith, f)
  | inr (gs, f) ↦ let eq = length-finish_last st d (e ∷ cs) gs f in ground (arith, f, eq)
]

-- A result line changes no total, and counts for its status.
abbrev Tallied : CaseStatus → TestSuite → TestSuite → Type 0
Tallied st s t =
    (length t.test_cases ≡ length s.test_cases)
    × (t.total_tests ≡ s.total_tests)
    × (t.passed_tests ≡ (counted st s).passed_tests)
    × (t.failed_tests ≡ (counted st s).failed_tests)
    × (t.skipped_tests ≡ (counted st s).skipped_tests)

counted-Tallied :
    (st : CaseStatus) (s : TestSuite) (cs : List TestCase)
    → length cs ≡ length s.test_cases
    → Tallied st s (counted st (record s { test_cases = cs }))
unfolding counted
counted-Tallied running s cs h = (h, refl, refl, refl, refl)
counted-Tallied passed s cs h = (h, refl, refl, refl, refl)
counted-Tallied failed s cs h = (h, refl, refl, refl, refl)
counted-Tallied skipped s cs h = (h, refl, refl, refl, refl)

case_ends-Tallied :
    (st : CaseStatus) (s t : TestSuite) (line : Text)
    → case_ends st s line ≡ some t
    → Tallied st s t
unfolding case_ends
case_ends-Tallied st s t line e =
    elim (Option-cases (finish_last st (extract_duration line) s.test_cases)) [
      | inl f ↦ absurd (ground (arith, f))
      | inr (fs, f) ↦
          let same = length-finish_last st (extract_duration line) s.test_cases fs f in
          let eq : counted st (record s { test_cases = fs }) ≡ t = ground (arith, f) in
          subst (λ (u : TestSuite). Tallied st s u) eq (counted-Tallied st s fs same)
    ]

-- What a suite counts, for the lines since another suite.
pub record Counts (s t : TestSuite) (runs passes fails skips : ℕ) : Type 0 where
  pub total : t.total_tests ≡ s.total_tests + runs
  pub cases : length t.test_cases ≡ length s.test_cases + runs
  pub passing : t.passed_tests ≡ s.passed_tests + passes
  pub failing : t.failed_tests ≡ s.failed_tests + fails
  pub skipping : t.skipped_tests ≡ s.skipped_tests + skips

suite_ends-Counts : (s : TestSuite) (line : Text) → Counts s (suite_ends s line) 0 0 0 0
unfolding suite_ends
suite_ends-Counts s line = ground arith

pub parse_line-Counts :
    (s t : TestSuite) (line : Text)
    → parse_line s line ≡ some t
    → Counts s t
        (one_if (has_prefix line run_mark))
        (one_if (has_prefix line pass_mark))
        (one_if (has_prefix line fail_mark))
        (one_if (has_prefix line skip_mark))
unfolding parse_line case_begins counted
parse_line-Counts s t line e =
    let rp = has_prefix-apart line run_mark pass_mark refl in
    let rf = has_prefix-apart line run_mark fail_mark refl in
    let rs = has_prefix-apart line run_mark skip_mark refl in
    let pf = has_prefix-apart line pass_mark fail_mark refl in
    let ps = has_prefix-apart line pass_mark skip_mark refl in
    let fs = has_prefix-apart line fail_mark skip_mark refl in
    let begun : TestCase = record {
      name = trim_prefix line (codes "=== RUN   ");
      status = running;
      duration = [];
    } in
    ground (
      arith,
      case_ends-Tallied passed s t line,
      case_ends-Tallied failed s t line,
      case_ends-Tallied skipped s t line,
      suite_ends-Counts s line,
      length-append s.test_cases (begun ∷ []),
    )

pub parse_lines-cons :
    (s t : TestSuite) (line : Text) (lines : List Text)
    → parse_line s line ≡ some t
    → parse_lines s (line ∷ lines) ≡ parse_lines t lines
unfolding parse_lines
parse_lines-cons s t line lines e = rw (e, parse_lines) refl

-- The suite of a log counts its lines: a test for each `=== RUN`, which are as many as its test cases,
-- and a pass, a failure and a skip for each result line, whatever else the log holds.
pub parse_lines-Counts :
    (s t : TestSuite) (lines : List Text)
    → parse_lines s lines ≡ some t
    → Counts s t
        (starting run_mark lines)
        (starting pass_mark lines)
        (starting fail_mark lines)
        (starting skip_mark lines)
unfolding parse_lines starting
parse_lines-Counts s t [] e = ground arith
parse_lines-Counts s t (line ∷ lines) e = elim (Option-cases (parse_line s line)) [
  | inl f ↦ absurd (ground (arith, f))
  | inr (u, f) ↦
      let one = parse_line-Counts s u line f in
      let rest = parse_lines-Counts u t lines (sym (parse_lines-cons s u line lines f) ∙ e) in
      ground (arith, one, rest)
]
