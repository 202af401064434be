-- ===== src/Report/Printed.antt =====
-- cmd/report-generator/main.go: the log of tests that run one after the other is read back.
use share_serial.Base.{
  unlines, ◌+◌, ◌≡◌, ◌≢◌, refl, ap, sym, ◌∙◌, some, List, [], ◌∷◌, ◌++◌, append-nil, append_assoc,
  Text, codes, has_prefix, trim_prefix, Lacks, Lacks-append, length, arith,
}
use share_serial.Report.Durations.{head, head-Lacks, end_line, extract_duration-end_line}
use share_serial.Report.Statuses.{AllPrintable, with_case, after, after_lem, how_many, how_many_sum}
use share_serial.Report.Tallies.{parse_lines-cons}
use share_serial.Report.{
  CaseStatus, running, passed, failed, skipped, TestCase, TestSuite, extract_duration, finish_last,
  counted, case_ends, suite_ends, parse_line, parse_lines, empty_suite, split_from, parse_test_log,
}

abbrev pub begin_line : TestCase → Text
begin_line c = codes "=== RUN   " ++ c.name

abbrev pub printed : List TestCase → List Text
printed [] = []
printed (c ∷ cs) = begin_line c ∷ end_line c.status c.name c.duration ∷ printed cs

finish_last-append :
    (st : CaseStatus) (d : Text) (cs : List TestCase) (c : TestCase)
    → finish_last st d (cs ++ c ∷ []) ≡ some (cs ++ record c { status = st; duration = d } ∷ [])
unfolding finish_last
finish_last-append st d [] c = refl
finish_last-append st d (b ∷ []) c = refl
finish_last-append st d (b ∷ a ∷ cs) c = rw (finish_last-append st d (a ∷ cs) c, finish_last) refl

pub begin_lem :
    (s : TestSuite) (c : TestCase)
    → parse_line s (begin_line c)
      ≡ some (record s {
        test_cases = s.test_cases ++ record { name = c.name; status = running; duration = [] } ∷ [];
        total_tests = s.total_tests + 1;
      })
unfolding parse_line trim_prefix has_prefix
begin_lem s c = refl

-- A suite whose last test has begun.
abbrev pub begun : TestSuite → Text → TestSuite
begun s name = record s {
  test_cases = s.test_cases ++ record { name = name; status = running; duration = [] } ∷ [];
  total_tests = s.total_tests + 1;
}

case_ends_of :
    (s : TestSuite) (st : CaseStatus) (line : Text) (cs : List TestCase)
    → finish_last st (extract_duration line) s.test_cases ≡ some cs
    → case_ends st s line ≡ some (counted st (record s { test_cases = cs }))
unfolding case_ends
case_ends_of s st line cs e = ground arith

pub case_ends-begun :
    (s : TestSuite) (st : CaseStatus) (name d line : Text)
    → extract_duration line ≡ d
    → case_ends st (begun s name) line
      ≡ some (with_case s (record { name = name; status = st; duration = d }))
case_ends-begun s st name d line e =
    let c : TestCase = record { name = name; status = running; duration = [] } in
    case_ends_of (begun s name) st line _ (
      ap (λ (t : Text). finish_last st t (s.test_cases ++ c ∷ [])) e
      ∙ finish_last-append st d s.test_cases c)

pub end_lem :
    (s : TestSuite) (st : CaseStatus) (name d : Text)
    → st ≢ running
    → parse_line s (end_line st name d) ≡ case_ends st s (end_line st name d)
unfolding parse_line has_prefix
end_lem s running name d n = absurd (n refl)
end_lem s passed name d n = refl
end_lem s failed name d n = refl
end_lem s skipped name d n = refl

parse_lines-printed :
    (s : TestSuite) (cs : List TestCase) (rest : List Text)
    → AllPrintable cs
    → parse_lines s (printed cs ++ rest) ≡ parse_lines (after s cs) rest
unfolding after parse_lines
parse_lines-printed s [] rest h = refl
parse_lines-printed s (c ∷ cs) rest h =
    let p = h.0 in
    let took = extract_duration-end_line c.status c.name c.duration p.1 p.2 p.3 in
    let ends =
      end_lem (begun s c.name) c.status c.name c.duration p.0
      ∙ case_ends-begun s c.status c.name c.duration (end_line c.status c.name c.duration) took in
    let line = end_line c.status c.name c.duration in
    parse_lines-cons s (begun s c.name) (begin_line c) (line ∷ (printed cs ++ rest)) (begin_lem s c)
    ∙ parse_lines-cons (begun s c.name) (with_case s c) line (printed cs ++ rest) ends
    ∙ parse_lines-printed (with_case s c) cs rest h.1

-- Each line ended by a line feed.
pub split_from-line :
    (line started rest : Text)
    → Lacks 10 line
    → split_from started (line ++ (10 ∷ rest)) ≡ (started ++ line) ∷ split_from [] rest
unfolding split_from
split_from-line [] started rest h =
    ap (λ (t : Text). t ∷ split_from [] rest) (sym (append-nil started))
split_from-line (c ∷ line) started rest h = rw (h.0) (
    split_from-line line (started ++ c ∷ []) rest h.1
    ∙ ap (λ (t : Text). t ∷ split_from [] rest) (append_assoc started (c ∷ []) line))

end_line-Lacks :
    (st : CaseStatus) (name d : Text) → Lacks 10 name → Lacks 10 d → Lacks 10 (end_line st name d)
end_line-Lacks st name d h k =
    Lacks-append 10 (head st name) (b'(' ∷ (d ++ b')' ∷ []))
      (head-Lacks 10 st name (ground arith) h) (refl, Lacks-append 10 d (b')' ∷ []) k (refl, tt))

split_from-printed :
    (cs : List TestCase)
    → AllPrintable cs
    → split_from [] (unlines (printed cs)) ≡ printed cs ++ [] ∷ []
split_from-printed [] h = unfold split_from in refl
split_from-printed (c ∷ cs) h =
    let p = h.0 in
    let line = end_line c.status c.name c.duration in
    split_from-line (begin_line c) [] (line ++ (10 ∷ unlines (printed cs)))
      (Lacks-append 10 (codes "=== RUN   ") c.name (ground arith) p.4)
    ∙ ap (◌∷◌ (begin_line c)) (
        split_from-line line [] (unlines (printed cs))
          (end_line-Lacks c.status c.name c.duration p.4 p.5)
        ∙ ap (◌∷◌ line) (split_from-printed cs h.1))

-- The log of tests that ran one after the other, each with a status and with names and durations that
-- hold no parenthesis and no line feed that would end them, is read back: the suite has these test
-- cases, in order and with their statuses and durations, and counts them, so that its passed, failed
-- and skipped tests add up to its total.
pub parse_test_log-printed :
    (package_name : Text) (cs : List TestCase)
    → AllPrintable cs
    → (s : TestSuite) × (parse_test_log package_name (unlines (printed cs)) ≡ some s)
      × (s.test_cases ≡ cs)
      × (s.total_tests ≡ length cs)
      × (s.passed_tests ≡ how_many passed cs)
      × (s.failed_tests ≡ how_many failed cs)
      × (s.skipped_tests ≡ how_many skipped cs)
      × (s.total_tests ≡ s.passed_tests + s.failed_tests + s.skipped_tests)
unfolding parse_test_log empty_suite
parse_test_log-printed package_name cs h =
    let s = empty_suite package_name in
    let (cases, total, p, f, k) = after_lem s cs in
    let sum = how_many_sum cs h in
    (
      after s cs,
      ap (parse_lines s) (split_from-printed cs h)
          ∙ parse_lines-printed s cs ([] ∷ []) h
          ∙ unfold parse_lines parse_line suite_ends has_prefix in refl,
      cases,
      omega (arith, total),
      omega (arith, p),
      omega (arith, f),
      omega (arith, k),
      omega (arith, total, p, f, k, sum),
    )
