-- ===== src/Report/Totals.antt =====
-- cmd/report-generator/main.go: the summary of the report.
use share_serial.Base.{
  ℕ, ◌+◌, ◌≡◌, refl, some, Option, List, [], ◌∷◌, ◌++◌, Text, codes, Option-cases, arith, length,
  inl, inr, subst,
}
use share_serial.Report.{TestSuite, parse_test_log, empty_suite, split_from}
use share_serial.Report.Generated.{
  TestReport, FileInfo, add_suite, add_logs, generate_report, new_report, complete, log_files,
  suite_name, without,
}
use share_serial.Report.Tallies.{parse_lines-Counts}

-- What the suites of a report add up to.
abbrev pub sum_of : (TestSuite → ℕ) → List TestSuite → ℕ
sum_of f [] = 0
sum_of f (s ∷ suites) = f s + sum_of f suites

sum_of-append :
    (f : TestSuite → ℕ) (ss ts : List TestSuite) → sum_of f (ss ++ ts) ≡ sum_of f ss + sum_of f ts
sum_of-append f [] ts = omega arith
sum_of-append f (s ∷ ss) ts = ground (arith, sum_of-append f ss ts)

abbrev pub AddsUp : TestReport → Type 0
AddsUp r =
    (r.summary.total_tests ≡ sum_of (λ s. s.total_tests) r.test_suites)
    × (r.summary.passed_tests ≡ sum_of (λ s. s.passed_tests) r.test_suites)
    × (r.summary.failed_tests ≡ sum_of (λ s. s.failed_tests) r.test_suites)
    × (r.summary.total_tests ≡ sum_of (λ s. length s.test_cases) r.test_suites)
    × (r.summary.skipped_tests ≡ sum_of (λ s. s.skipped_tests) r.test_suites)

add_suite-AddsUp :
    (r : TestReport) (file : Text) (s : TestSuite)
    → s.total_tests ≡ length s.test_cases
    → AddsUp r
    → AddsUp (add_suite r file s)
unfolding add_suite
add_suite-AddsUp r file s same h =
    let named = record s { name = suite_name file } in
    let total = sum_of-append (λ s'. s'.total_tests) r.test_suites (named ∷ []) in
    let passing = sum_of-append (λ s'. s'.passed_tests) r.test_suites (named ∷ []) in
    let failing = sum_of-append (λ s'. s'.failed_tests) r.test_suites (named ∷ []) in
    let cases = sum_of-append (λ s'. length s'.test_cases) r.test_suites (named ∷ []) in
    let skipping = sum_of-append (λ s'. s'.skipped_tests) r.test_suites (named ∷ []) in
    let (a, b, c, d, e) = h in
    (
      omega (arith, total, a),
      omega (arith, passing, b),
      omega (arith, failing, c),
      omega (arith, cases, d, same),
      omega (arith, skipping, e),
    )

parse_test_log-total :
    (package_name content : Text) (s : TestSuite)
    → parse_test_log package_name content ≡ some s
    → s.total_tests ≡ length s.test_cases
unfolding parse_test_log empty_suite
parse_test_log-total package_name content s e =
    let counts = parse_lines-Counts (empty_suite package_name) s (split_from [] content) e in
    omega (arith, counts.total, counts.cases)

add_logs-AddsUp :
    (files : Text → Option Text) (r t : TestReport) (names : List Text)
    → AddsUp r
    → add_logs files r names ≡ some t
    → AddsUp t
unfolding add_logs
add_logs-AddsUp files r t [] h e = ground arith
add_logs-AddsUp files r t (name ∷ names) h e = elim (Option-cases (files name)) [
  | inl f ↦ add_logs-AddsUp files r t names h (ground (arith, f))
  | inr (content, f) ↦ elim (Option-cases (parse_test_log (without name (codes ".log")) content)) [
    | inl g ↦ absurd (ground (arith, f, g))
    | inr (s, g) ↦
        add_logs-AddsUp files (add_suite r name s) t names
          (add_suite-AddsUp r name s
            (parse_test_log-total (without name (codes ".log")) content s g) h)
          (ground (arith, f, g))
  ]
]

-- The numbers of the report's summary are the sums over its suites, and its total is the number of
-- their test cases.
pub generate_report-AddsUp :
    (now : Text) (files : Text → Option Text) (bin : Option (List FileInfo)) (r : TestReport)
    → generate_report now files bin ≡ some r
    → AddsUp r
unfolding generate_report new_report complete
generate_report-AddsUp now files bin r e =
    elim (Option-cases (add_logs files (new_report now) log_files)) [
      | inl f ↦ absurd (ground (arith, f))
      | inr (t, f) ↦
          let adds =
            add_logs-AddsUp files (new_report now) t log_files (refl, refl, refl, refl, refl) f in
          let eq : complete bin t ≡ r = ground (arith, f) in subst AddsUp eq adds
    ]
