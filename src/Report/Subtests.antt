-- ===== src/Report/Subtests.antt =====
-- cmd/report-generator/main.go: the log of a test with a subtest, which is indented.
use share_serial.Base.{
  ◌≡◌, refl, ◌∙◌, some, List, [], ◌∷◌, ◌++◌, Text, codes, ◌+◌, has_prefix, Lacks, arith,
}
use share_serial.Report.{
  running, failed, TestCase, TestSuite, parse_line, parse_lines, suite_ends, counted,
}
use share_serial.Report.Tallies.{parse_lines-cons}
use share_serial.Report.Durations.{end_line, extract_duration-end_line}
use share_serial.Report.Statuses.{with_case}
use share_serial.Report.Printed.{begun, begin_lem, end_lem, case_ends-begun}

-- `go test -v` on a test that fails because its subtest does.
abbrev pub with_subtest : Text → Text → Text → Text → List Text
with_subtest name sub d e =
    (codes "=== RUN   " ++ name)
    ∷ (codes "=== RUN   " ++ sub)
    ∷ end_line failed name d
    ∷ (codes "    " ++ end_line failed sub e)
    ∷ []

begins :
    (s : TestSuite) (name : Text) → parse_line s (codes "=== RUN   " ++ name) ≡ some (begun s name)
begins s name = begin_lem s (record { name = name; status = running; duration = [] })

indented : (s : TestSuite) (line : Text) → parse_line s (codes "    " ++ line) ≡ some s
unfolding parse_line suite_ends has_prefix
indented s line = refl

parse_lines-nil : (s : TestSuite) → parse_lines s [] ≡ some s
unfolding parse_lines
parse_lines-nil s = refl

-- A test that fails because its subtest does is misread: the result of the test goes to the subtest,
-- the test itself stays running for ever, and one failure is counted for two tests.
subtest_misread :
    (s : TestSuite) (name sub d e : Text)
    → Lacks b'(' name
    → Lacks b')' name
    → Lacks b')' d
    → let parent : TestCase = record { name = name; status = running; duration = [] } in
      let child : TestCase = record { name = sub; status = failed; duration = d } in
      parse_lines s (with_subtest name sub d e)
      ≡ some (record s {
        test_cases = (s.test_cases ++ parent ∷ []) ++ child ∷ [];
        total_tests = (s.total_tests + 1) + 1;
        failed_tests = s.failed_tests + 1;
      })
unfolding counted
subtest_misread s name sub d e h k l =
    let parent = begun s name in
    let both = begun parent sub in
    let read = with_case parent (record { name = sub; status = failed; duration = d }) in
    let line = end_line failed name d in
    let ended =
      end_lem both failed name d (λ same. ground arith)
      ∙ case_ends-begun parent failed sub d line (extract_duration-end_line failed name d h k l) in
    parse_lines-cons s parent (codes "=== RUN   " ++ name) _ (begins s name)
    ∙ parse_lines-cons parent both (codes "=== RUN   " ++ sub) _ (begins parent sub)
    ∙ parse_lines-cons both read line _ ended
    ∙ parse_lines-cons read read (codes "    " ++ end_line failed sub e) []
        (indented read (end_line failed sub e))
    ∙ parse_lines-nil read
