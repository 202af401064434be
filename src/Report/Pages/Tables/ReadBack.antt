-- ===== src/Report/Pages/Tables/ReadBack.antt =====
-- cmd/report-generator/main.go: the tables of the Markdown report hold the test cases.
use share_serial.Base.{
  ℕ, ◌≡◌, refl, ap, sym, ◌∙◌, List, [], ◌∷◌, ◌++◌, append_assoc, append-nil, Text, text_eq, unlines,
}
use share_serial.Report.{TestCase, TestSuite, split_from}
use share_serial.Report.Generated.{TestReport}
use share_serial.Report.Pages.Markdown.{
  case_row, case_rows, suite_head, suites_part, summary_part, closing_part, markdown_report,
}
use share_serial.Report.Pages.Tables.{Row, outside, inside, read_rows, read_row}
use share_serial.Report.Pages.Tables.Rows.{row_of, read_row-case_row}
use share_serial.Report.Pages.Tables.Lines.{
  CleanCases, CleanSuites, CleanReport, split_from-unlines, unlines-append, suites_part-AllUnbroken,
  summary_part-AllUnbroken,
}

abbrev pub rows_of : List TestCase → List Row
rows_of [] = []
rows_of (c ∷ cs) = row_of c ∷ rows_of cs

abbrev pub all_rows : List TestSuite → List Row
all_rows [] = []
all_rows (s ∷ ss) = rows_of s.test_cases ++ all_rows ss

read_rows-case_row :
    (c : TestCase) (lines : List Text)
    → read_rows inside (case_row c ∷ lines) ≡ read_row (case_row c) ∷ read_rows inside lines
unfolding read_rows case_row
read_rows-case_row c lines = refl

read_rows-ended : (lines : List Text) → read_rows inside ([] ∷ lines) ≡ read_rows outside lines
unfolding read_rows
read_rows-ended lines = refl

read_rows-case_rows :
    (cs : List TestCase) (lines : List Text)
    → CleanCases cs
    → read_rows inside (case_rows cs ++ ([] ∷ lines)) ≡ rows_of cs ++ read_rows outside lines
unfolding case_rows
read_rows-case_rows [] lines h = read_rows-ended lines
read_rows-case_rows (c ∷ cs) lines h =
    let rest = case_rows cs ++ ([] ∷ lines) in
    (read_rows-case_row c rest
      ∙ ap (λ (r : Row). r ∷ read_rows inside rest) (read_row-case_row c h.0 h.1)
      ∙ ap (◌∷◌ (row_of c)) (read_rows-case_rows cs lines h.2))

read_rows-suite_head :
    (s : TestSuite) (lines : List Text)
    → read_rows outside (suite_head s ++ lines) ≡ read_rows inside lines
unfolding read_rows suite_head text_eq
read_rows-suite_head s lines = refl

read_rows-empty : (lines : List Text) → read_rows outside ([] ∷ lines) ≡ read_rows outside lines
unfolding read_rows text_eq
read_rows-empty lines = refl

read_rows-suites_part :
    (ss : List TestSuite) (lines : List Text)
    → CleanSuites ss
    → read_rows outside (suites_part ss ++ lines) ≡ all_rows ss ++ read_rows outside lines
unfolding suites_part
read_rows-suites_part [] lines h = refl
read_rows-suites_part (s ∷ ss) lines h =
    let rest = [] ∷ (suites_part ss ++ lines) in
    (ap (read_rows outside) (
        append_assoc (suite_head s) (case_rows s.test_cases ++ ([] ∷ [] ∷ suites_part ss)) lines
        ∙ ap (λ (t : List Text). suite_head s ++ t)
            (append_assoc (case_rows s.test_cases) ([] ∷ [] ∷ suites_part ss) lines))
      ∙ read_rows-suite_head s (case_rows s.test_cases ++ ([] ∷ rest))
      ∙ read_rows-case_rows s.test_cases rest h.2
      ∙ ap (λ (t : List Row). rows_of s.test_cases ++ t)
          (read_rows-empty (suites_part ss ++ lines) ∙ read_rows-suites_part ss lines h.3)
      ∙ sym (append_assoc (rows_of s.test_cases) (all_rows ss) (read_rows outside lines)))

read_rows-summary_part :
    (percent : ℕ → ℕ → Text) (r : TestReport) (lines : List Text)
    → read_rows outside (summary_part percent r ++ lines) ≡ read_rows outside lines
unfolding read_rows summary_part text_eq
read_rows-summary_part percent r lines = refl

-- The reader stops at the section on build artefacts, whatever that holds.
read_rows-closing_part :
    (r : TestReport) → read_rows outside (split_from [] (unlines (closing_part r))) ≡ []
unfolding read_rows closing_part text_eq split_from
read_rows-closing_part r = refl

markdown_parts :
    (percent : ℕ → ℕ → Text) (r : TestReport)
    → markdown_report percent r
      ≡ unlines (summary_part percent r)
        ++ (unlines (suites_part r.test_suites) ++ unlines (closing_part r))
unfolding markdown_report
markdown_parts percent r =
    let first = summary_part percent r in
    unlines-append first (suites_part r.test_suites ++ closing_part r)
    ∙ ap (λ (t : Text). unlines first ++ t)
        (unlines-append (suites_part r.test_suites) (closing_part r))

-- The tables of the Markdown report hold the test cases: a reader that splits the report into lines,
-- takes the rows of the tables of tests apart at their bars and decodes the character references gets
-- the name, the status and the duration of every test case of every suite, in order, if no name and no
-- duration has a bar, a line feed or a NUL, and no other text of the report has a line feed.
pub markdown_report-rows :
    (percent : ℕ → ℕ → Text) (r : TestReport)
    → CleanReport percent r
    → read_rows outside (split_from [] (markdown_report percent r)) ≡ all_rows r.test_suites
markdown_report-rows percent r h =
    let first = summary_part percent r in
    let suites = suites_part r.test_suites in
    let last = closing_part r in
    let rest = split_from [] (unlines last) in
    ap (λ (t : Text). read_rows outside (split_from [] t)) (markdown_parts percent r)
    ∙ ap (read_rows outside) (
        split_from-unlines first (unlines suites ++ unlines last)
          (summary_part-AllUnbroken percent r h)
        ∙ ap (λ (t : List Text). first ++ t)
            (split_from-unlines suites (unlines last)
              (suites_part-AllUnbroken r.test_suites h.suites)))
    ∙ read_rows-summary_part percent r (suites ++ rest)
    ∙ read_rows-suites_part r.test_suites rest h.suites
    ∙ ap (λ (t : List Row). all_rows r.test_suites ++ t) (read_rows-closing_part r)
    ∙ append-nil (all_rows r.test_suites)
