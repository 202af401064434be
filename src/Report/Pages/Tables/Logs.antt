-- ===== src/Report/Pages/Tables/Logs.antt =====
-- cmd/report-generator/main.go: logs with no bar and no NUL make a report that a table can hold.
use share_serial.Base.{
  ◌≡◌, refl, ◌∙◌, Option, none, some, List, [], ◌∷◌, ◌++◌, Text, codes, member-append, ◌==◌,
  if_cases, arith, inl, inr, Option-cases, has_prefix, subst,
}
use share_serial.Report.{
  CaseStatus, running, passed, failed, skipped, TestCase, TestSuite, extract_duration, finish_last,
  counted, case_begins, case_ends, suite_ends, parse_line, parse_lines, empty_suite, split_from,
  parse_test_log,
}
use share_serial.Report.Pages.Tables.Rows.{Clean}
use share_serial.Report.Pages.Tables.Cells.{Plain, trim_prefix-Clean, extract_duration-Clean}
use share_serial.Report.Pages.Tables.Lines.{Unbroken, CleanCases}

-- What the lines of such a log make of a suite.
abbrev pub CleanSuite : TestSuite → Type 0
CleanSuite s = Unbroken s.status × CleanCases s.test_cases

CleanCases-append :
    (cs : List TestCase) (c : TestCase)
    → CleanCases cs
    → Clean c.name
    → Clean c.duration
    → CleanCases (cs ++ c ∷ [])
CleanCases-append [] c h n d = (n, d, tt)
CleanCases-append (b ∷ cs) c h n d = (h.0, h.1, CleanCases-append cs c h.2 n d)

finish_last-CleanCases :
    (st : CaseStatus) (d : Text) (cs fs : List TestCase)
    → Clean d
    → CleanCases cs
    → finish_last st d cs ≡ some fs
    → CleanCases fs
unfolding finish_last
finish_last-CleanCases st d [] fs k h e = absurd (cc)
finish_last-CleanCases st d (c ∷ []) fs k h e =
    let eq : record c { status = st; duration = d } ∷ [] ≡ fs = ground arith in
    subst CleanCases eq (h.0, k, tt)
finish_last-CleanCases st d (c ∷ b ∷ cs) fs k h e =
    elim (Option-cases (finish_last st d (b ∷ cs))) [
      | inl f ↦ absurd (ground (arith, f))
      | inr (gs, f) ↦
          let eq : c ∷ gs ≡ fs = ground (arith, f) in
          subst CleanCases eq (h.0, h.1, finish_last-CleanCases st d (b ∷ cs) gs k h.2 f)
    ]

counted-CleanSuite : (st : CaseStatus) (s : TestSuite) → CleanSuite s → CleanSuite (counted st s)
unfolding counted
counted-CleanSuite running s h = h
counted-CleanSuite passed s h = h
counted-CleanSuite failed s h = h
counted-CleanSuite skipped s h = h

case_ends-CleanSuite :
    (st : CaseStatus) (s t : TestSuite) (line : Text)
    → Clean line
    → CleanSuite s
    → case_ends st s line ≡ some t
    → CleanSuite t
unfolding case_ends
case_ends-CleanSuite st s t line k h e =
    elim (Option-cases (finish_last st (extract_duration line) s.test_cases)) [
      | inl f ↦ absurd (ground (arith, f))
      | inr (fs, f) ↦
          let cases =
            finish_last-CleanCases st (extract_duration line) s.test_cases fs
              (extract_duration-Clean line k) h.1 f in
          let eq : counted st (record s { test_cases = fs }) ≡ t = ground (arith, f) in
          subst CleanSuite eq (counted-CleanSuite st (record s { test_cases = fs }) (h.0, cases))
    ]

suite_ends-CleanSuite :
    (s : TestSuite) (line : Text) → CleanSuite s → CleanSuite (suite_ends s line)
unfolding suite_ends
suite_ends-CleanSuite s line h =
    if_cases CleanSuite (has_prefix line (codes "FAIL")) _ _ (λ _. (refl, h.1))
      (λ _. if_cases CleanSuite (has_prefix line (codes "PASS")) _ _ (λ _. (refl, h.1)) (λ _. h))

case_begins-CleanSuite :
    (s : TestSuite) (line : Text) → Clean line → CleanSuite s → CleanSuite (case_begins s line)
unfolding case_begins
case_begins-CleanSuite s line k h = (
  h.0,
  CleanCases-append s.test_cases _ h.1 (trim_prefix-Clean line (codes "=== RUN   ") k)
      (refl, refl, refl),
)

-- What holds of a suite after a line that does not panic.
abbrev After : Option TestSuite → Type 0
After none = Unit {0}
After (some t) = CleanSuite t

case_ends-After :
    (st : CaseStatus) (s : TestSuite) (line : Text)
    → Clean line
    → CleanSuite s
    → After (case_ends st s line)
case_ends-After st s line k h = elim (Option-cases (case_ends st s line)) [
  | inl e ↦ rw e tt
  | inr (t, e) ↦ rw e (case_ends-CleanSuite st s t line k h e)
]

parse_line-After :
    (s : TestSuite) (line : Text) → Clean line → CleanSuite s → After (parse_line s line)
unfolding parse_line
parse_line-After s line k h =
    if_cases After (has_prefix line (codes "=== RUN")) _ _ (λ _. case_begins-CleanSuite s line k h)
      (λ _.
        if_cases After (has_prefix line (codes "--- PASS")) _ _
          (λ _. case_ends-After passed s line k h)
          (λ _.
            if_cases After (has_prefix line (codes "--- FAIL")) _ _
              (λ _. case_ends-After failed s line k h)
              (λ _.
                if_cases After (has_prefix line (codes "--- SKIP")) _ _
                  (λ _. case_ends-After skipped s line k h) (λ _. suite_ends-CleanSuite s line h))))

abbrev AllClean : List Text → Type 0
AllClean [] = Unit {0}
AllClean (l ∷ ls) = Clean l × AllClean ls

parse_lines-CleanSuite :
    (s t : TestSuite) (lines : List Text)
    → AllClean lines
    → CleanSuite s
    → parse_lines s lines ≡ some t
    → CleanSuite t
unfolding parse_lines
parse_lines-CleanSuite s t [] k h e = let eq : s ≡ t = ground arith in subst CleanSuite eq h
parse_lines-CleanSuite s t (line ∷ lines) k h e = elim (Option-cases (parse_line s line)) [
  | inl f ↦ absurd (ground (arith, f))
  | inr (u, f) ↦
      parse_lines-CleanSuite u t lines k.1 (subst After f (parse_line-After s line k.0 h))
        (ground (arith, f))
]

split_from-AllClean : (line s : Text) → Clean line → Plain s → AllClean (split_from line s)
unfolding split_from
split_from-AllClean line [] h k = (h, tt)
split_from-AllClean line (c ∷ s) h k =
    let rest : Plain s = (ground arith, ground arith) in
    if_cases AllClean (c == 10) _ _ (λ _. (h, split_from-AllClean [] s (refl, refl, refl) rest))
      (λ other.
        split_from-AllClean (line ++ c ∷ []) s
          (
            member-append 0 line (c ∷ []) ∙ rw (h.0) (ground arith),
            member-append 10 line (c ∷ []) ∙ rw (h.1) (ground arith),
            member-append b'|' line (c ∷ []) ∙ rw (h.2) (ground arith),
          )
          rest)

pub parse_test_log-CleanSuite :
    (package_name content : Text) (s : TestSuite)
    → Plain content
    → parse_test_log package_name content ≡ some s
    → CleanSuite s
unfolding parse_test_log empty_suite
parse_test_log-CleanSuite package_name content s k e =
    parse_lines-CleanSuite (empty_suite package_name) s (split_from [] content)
      (split_from-AllClean [] content (refl, refl, refl) k) (refl, tt) e
