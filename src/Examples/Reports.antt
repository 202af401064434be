-- ===== src/Examples/Reports.antt =====
-- The report generator and the named configuration sources at concrete inputs.
use share_serial.Base.{
  lookup, length, ℕ, false, unlines, ◌+◌, ◌≡◌, ◌↔◌, refl, true, Option, none, some, List, [], ◌∷◌,
  Text, codes, text_eq, if◌then◌else◌, arith, has_prefix,
}
use share_serial.Report.{
  parse_line, split_from, TestCase, TestSuite, passed, failed, skipped, parse_lines, parse_test_log,
  empty_suite,
}
use share_serial.Report.Generated.{TestReport, generate_report, new_report}
use share_serial.Report.Pages.Html.{html_report}
use share_serial.Report.Pages.Tables.{read_rows, outside}
use share_serial.Report.Pages.Tables.ReadBack.{all_rows}
use share_serial.Report.Pages.Tables.Cells.{Plain}
use share_serial.Report.Pages.Saved.{World, main_files, report_path}
use share_serial.Report.Pages.Shown.{main_files-rows}
use share_serial.Report.Pages.Tags.{tags}
use share_serial.Report.Pages.Tags.Contents.{html_report-tags}
use share_serial.Report.Statuses.{how_many}
use share_serial.Report.Printed.{printed, parse_test_log-printed}
use share_serial.Report.Panics.{result_first, parse_lines_panics}
use share_serial.Report.Totals.{AddsUp, generate_report-AddsUp}

abbrev test_a : TestCase
test_a = record { name = codes "TestA"; status = passed; duration = codes "0.01s" }

abbrev test_b : TestCase
test_b = record { name = codes "TestB"; status = failed; duration = codes "2s" }

parse_test_log-printed_example :
    (s : TestSuite) × (parse_test_log (codes "unit") (unlines (printed (test_a ∷ test_b ∷ [])))
      ≡ some s)
    × (s.test_cases ≡ test_a ∷ test_b ∷ [])
    × (s.total_tests ≡ 2)
    × (s.passed_tests ≡ how_many passed (test_a ∷ test_b ∷ []))
    × (s.failed_tests ≡ how_many failed (test_a ∷ test_b ∷ []))
    × (s.skipped_tests ≡ how_many skipped (test_a ∷ test_b ∷ []))
    × (s.total_tests ≡ s.passed_tests + s.failed_tests + s.skipped_tests)
parse_test_log-printed_example = parse_test_log-printed (codes "unit") (test_a ∷ test_b ∷ []) (
  (λ e. ground arith, ground arith, ground arith, ground arith, ground arith, ground arith),
  ((λ e. ground arith, ground arith, ground arith, ground arith, ground arith, ground arith), tt),
)

-- A log that begins with a result.
abbrev cut_log : List Text
cut_log = codes "ok" ∷ codes "--- PASS: TestA (0.01s)" ∷ []

parse_lines_panics_example :
    (parse_lines (empty_suite (codes "unit")) cut_log ≡ none) ↔ (result_first cut_log ≡ true)
parse_lines_panics_example = parse_lines_panics (codes "unit") cut_log

-- The unit tests' log is there, and the others are not.
abbrev files : Text → Option Text
files name =
    if text_eq name (codes "unit_test_output.log")
    then some (codes "=== RUN   A\n--- PASS: A (1s)")
    else none

abbrev report : TestReport
report = elim (generate_report (codes "now") files none) [ none ↦ new_report [] | some r ↦ r ]

generate_report-AddsUp_example : AddsUp report
unfolding generate_report text_eq parse_line has_prefix
generate_report-AddsUp_example = generate_report-AddsUp (codes "now") files none report refl

abbrev percent : ℕ → ℕ → Text
percent passes total = codes "100.00"

-- The program where the unit tests' log is there and every file can be created.
abbrev world : World
world = record {
  now = codes "now";
  stamp = codes "1";
  report_dir = codes "test-reports";
  logs = files;
  bin = none;
  can_create = λ path. true;
  marshal = λ r. none;
  percent = percent;
}

files-Plain : (name content : Text) → files name ≡ some content → Plain content
files-Plain name content e = (ground arith, ground arith)

abbrev written : List (Text × Text)
written = elim (main_files world) [ none ↦ [] | some fs ↦ fs ]

main_files-rows_example :
    (r : TestReport) × (page : Text) × (generate_report (codes "now") files none ≡ some r)
    × (lookup (report_path world (codes "md")) written ≡ some page)
    × (read_rows outside (split_from [] page) ≡ all_rows r.test_suites)
    × (length (read_rows outside (split_from [] page)) ≡ r.summary.total_tests)
unfolding main_files generate_report text_eq parse_line has_prefix
main_files-rows_example =
    main_files-rows world written (λ passes total. refl) refl files-Plain refl refl

-- The same report, but for a test whose name is that of a tag.
abbrev marked_up : TestReport
marked_up = elim report.test_suites [
  | [] ↦ report
  | s ∷ ss ↦ record report {
    test_suites =
        record s { test_cases = record { name = codes "<b>"; status = passed; duration = [] } ∷ [] }
        ∷ ss;
  }
]

html_report-tags_example :
    tags false (html_report percent report) ≡ tags false (html_report percent marked_up)
unfolding generate_report text_eq parse_line has_prefix
html_report-tags_example =
    html_report-tags percent percent report marked_up refl (refl, (refl, tt), tt) tt
