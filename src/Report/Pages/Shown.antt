-- ===== src/Report/Pages/Shown.antt =====
-- cmd/report-generator/main.go: the Markdown file that `main` writes shows the tests of the logs.
use share_serial.Base.{
  ℕ, suc, ◌≡◌, refl, ap, sym, ◌∙◌, true, Option, some, List, [], ◌∷◌, ◌++◌, Text, codes, Dict,
  lookup, text_eq_refl, length, length-append, ltb, ◌==◌, if_cases, arith, inl, inr, Option-cases,
  subst, cut, has_prefix, after_prefix,
}
use share_serial.Report.{TestCase, TestSuite, parse_test_log, split_from}
use share_serial.Report.Generated.{
  TestReport, TestSummary, FileInfo, add_suite, add_logs, generate_report, new_report, complete,
  log_files, suite_name, without, report_status,
}
use share_serial.Report.Totals.{sum_of, generate_report-AddsUp}
use share_serial.Report.Pages.{pass_rate}
use share_serial.Report.Pages.Markdown.{markdown_report}
use share_serial.Report.Pages.Saved.{World, report_path, save_file, save_json_report, main_files}
use share_serial.Report.Pages.Html.{html_report}
use share_serial.Report.Pages.Tables.{read_rows, outside}
use share_serial.Report.Pages.Tables.Cells.{Plain}
use share_serial.Report.Pages.Tables.Lines.{Unbroken, CleanSuites, CleanReport}
use share_serial.Report.Pages.Tables.Logs.{CleanSuite, parse_test_log-CleanSuite}
use share_serial.Report.Pages.Tables.ReadBack.{rows_of, all_rows, markdown_report-rows}

-- Every log that is there has no bar and no NUL.
abbrev pub PlainLogs : (Text → Option Text) → Type 0
PlainLogs files = (name content : Text) → files name ≡ some content → Plain content

abbrev Named : List Text → Type 0
Named [] = Unit {0}
Named (f ∷ fs) = Unbroken (suite_name f) × Named fs

CleanSuites-append :
    (ss : List TestSuite) (s : TestSuite)
    → CleanSuites ss
    → Unbroken s.name
    → CleanSuite s
    → CleanSuites (ss ++ s ∷ [])
CleanSuites-append [] s h n k = (n, k.0, k.1, tt)
CleanSuites-append (t ∷ ss) s h n k = (h.0, h.1, h.2, CleanSuites-append ss s h.3 n k)

-- The texts of a report that do not come from the logs.
abbrev CleanFrame : TestReport → Type 0
CleanFrame r =
    Unbroken r.timestamp × Unbroken r.git_commit × Unbroken r.git_branch × Unbroken r.go_version

abbrev CleanSoFar : TestReport → Type 0
CleanSoFar r = CleanFrame r × CleanSuites r.test_suites

add_logs-CleanSoFar :
    (files : Text → Option Text) (r t : TestReport) (names : List Text)
    → PlainLogs files
    → Named names
    → CleanSoFar r
    → add_logs files r names ≡ some t
    → CleanSoFar t
unfolding add_logs
add_logs-CleanSoFar files r t [] plain named h e =
    let eq : r ≡ t = ground arith in subst CleanSoFar eq h
add_logs-CleanSoFar files r t (name ∷ names) plain named h e = elim (Option-cases (files name)) [
  | inl f ↦ add_logs-CleanSoFar files r t names plain named.1 h (ground (arith, f))
  | inr (content, f) ↦ elim (Option-cases (parse_test_log (without name (codes ".log")) content)) [
    | inl g ↦ absurd (ground (arith, f, g))
    | inr (s, g) ↦
        let clean =
          parse_test_log-CleanSuite (without name (codes ".log")) content s (plain name content f)
            g in
        add_logs-CleanSoFar files (add_suite r name s) t names plain named.1
          (
            h.0,
            unfold add_suite in
                CleanSuites-append r.test_suites (record s { name = suite_name name }) h.1 named.0
                  clean,
          )
          (ground (arith, f, g))
  ]
]

report_status-Unbroken : (sum : TestSummary) → Unbroken (report_status sum)
unfolding report_status
report_status-Unbroken sum =
    if_cases Unbroken (sum.failed_tests == 0) _ _
      (λ _. if_cases Unbroken (ltb 0 sum.passed_tests) _ _ (λ _. refl) (λ _. refl))
      (λ _. if_cases Unbroken (ltb sum.failed_tests sum.passed_tests) _ _ (λ _. refl) (λ _. refl))

pass_rate-Unbroken :
    (percent : ℕ → ℕ → Text) (sum : TestSummary)
    → ((passes total : ℕ) → Unbroken (percent passes total))
    → Unbroken (pass_rate percent sum)
unfolding pass_rate
pass_rate-Unbroken percent sum h =
    if_cases Unbroken (ltb 0 sum.total_tests) _ _ (λ _. h sum.passed_tests sum.total_tests)
      (λ _. refl)

complete-CleanReport :
    (percent : ℕ → ℕ → Text) (bin : Option (List FileInfo)) (r : TestReport)
    → ((passes total : ℕ) → Unbroken (percent passes total))
    → CleanSoFar r
    → CleanReport percent (complete bin r)
unfolding complete
complete-CleanReport percent bin r rate h = record {
  timestamp = h.0.0;
  git_commit = h.0.1;
  git_branch = h.0.2;
  go_version = h.0.3;
  status = report_status-Unbroken r.summary;
  rate = pass_rate-Unbroken percent _ rate;
  suites = h.1;
}

log_files-Named : Named log_files
unfolding suite_name cut has_prefix after_prefix
log_files-Named = (refl, (refl, (refl, tt)))

generate_report-CleanReport :
    (percent : ℕ → ℕ → Text) (now : Text) (files : Text → Option Text)
    (bin : Option (List FileInfo)) (r : TestReport)
    → ((passes total : ℕ) → Unbroken (percent passes total))
    → Unbroken now
    → PlainLogs files
    → generate_report now files bin ≡ some r
    → CleanReport percent r
unfolding generate_report new_report
generate_report-CleanReport percent now files bin r rate time plain e =
    elim (Option-cases (add_logs files (new_report now) log_files)) [
      | inl f ↦ absurd (ground (arith, f))
      | inr (t, f) ↦
          let so_far =
            add_logs-CleanSoFar files (new_report now) t log_files plain log_files-Named
              ((time, refl, refl, refl), tt) f in
          let eq : complete bin t ≡ r = ground (arith, f) in
          subst (CleanReport percent) eq (complete-CleanReport percent bin t rate so_far)
    ]

length-rows_of : (cs : List TestCase) → length (rows_of cs) ≡ length cs
length-rows_of [] = refl
length-rows_of (c ∷ cs) = ap suc (length-rows_of cs)

length-all_rows :
    (ss : List TestSuite) → length (all_rows ss) ≡ sum_of (λ s. length s.test_cases) ss
length-all_rows [] = refl
length-all_rows (s ∷ ss) = omega (
  arith,
  length-append (rows_of s.test_cases) (all_rows ss),
  length-rows_of s.test_cases,
  length-all_rows ss,
)

save_first :
    (w : World) (extension content : Text) (rest : Dict Text)
    → w.can_create (report_path w extension) ≡ true
    → lookup (report_path w extension) (save_file w extension content ++ rest) ≡ some content
unfolding save_file lookup
save_first w extension content rest h = rw (h, text_eq_refl (report_path w extension)) refl

main_files-markdown :
    (w : World) (files : Dict Text) (r : TestReport)
    → w.can_create (report_path w (codes "md")) ≡ true
    → main_files w ≡ some files
    → generate_report w.now w.logs w.bin ≡ some r
    → lookup (report_path w (codes "md")) files ≡ some (markdown_report w.percent r)
unfolding main_files
main_files-markdown w files r can e g =
    let path = report_path w (codes "md") in
    let rest = save_file w (codes "html") (html_report w.percent r) ++ save_json_report w r in
    let eq : save_file w (codes "md") (markdown_report w.percent r) ++ rest ≡ files =
      ground (arith, g) in
    subst (λ (fs : Dict Text). lookup path fs ≡ some (markdown_report w.percent r)) eq
      (save_first w (codes "md") (markdown_report w.percent r) rest can)

-- What `main` shows of the logs, if they have no bar and no NUL, the time and the rate have no line feed
-- and the Markdown file can be created: when it writes its files, there is a report made from the logs,
-- and the tables of the Markdown file, read back from its text, hold the name, the status and the
-- duration of each of the report's test cases, in order; they are as many as the summary's total says.
pub main_files-rows :
    (w : World) (files : Dict Text)
    → ((passes total : ℕ) → Unbroken (w.percent passes total))
    → Unbroken w.now
    → PlainLogs w.logs
    → w.can_create (report_path w (codes "md")) ≡ true
    → main_files w ≡ some files
    → (r : TestReport) × (page : Text) × (generate_report w.now w.logs w.bin ≡ some r)
      × (lookup (report_path w (codes "md")) files ≡ some page)
      × (read_rows outside (split_from [] page) ≡ all_rows r.test_suites)
      × (length (read_rows outside (split_from [] page)) ≡ r.summary.total_tests)
main_files-rows w files rate time plain can e =
    elim (Option-cases (generate_report w.now w.logs w.bin)) [
      | inl f ↦ absurd (unfold main_files in ground (arith, f))
      | inr (r, f) ↦
          let rows =
            markdown_report-rows w.percent r
              (generate_report-CleanReport w.percent w.now w.logs w.bin r rate time plain f) in
          let total = generate_report-AddsUp w.now w.logs w.bin r f in
          (
            r,
            markdown_report w.percent r,
            f,
            main_files-markdown w files r can e f,
            rows,
            ap length rows ∙ length-all_rows r.test_suites ∙ sym total.3,
          )
    ]
