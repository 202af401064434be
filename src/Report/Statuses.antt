-- ===== src/Report/Statuses.antt =====
-- cmd/report-generator/main.go: how many tests of each status a suite counts.
use share_serial.Base.{
  ℕ, suc, ◌+◌, ◌≡◌, ◌≢◌, refl, sym, ◌∙◌, Bool, true, false, List, [], ◌∷◌, ◌++◌, append-nil,
  append_assoc, Lacks, length, if◌then◌else◌, arith,
}
use share_serial.Report.{CaseStatus, running, passed, failed, skipped, TestCase, TestSuite, counted}

-- A test that has ended, and whose name and duration can be told apart.
abbrev pub IsPrintable : TestCase → Type 0
IsPrintable c =
    (c.status ≢ running)
    × Lacks b'(' c.name
    × Lacks b')' c.name
    × Lacks b')' c.duration
    × Lacks 10 c.name
    × Lacks 10 c.duration

abbrev pub AllPrintable : List TestCase → Type 0
AllPrintable [] = Unit {0}
AllPrintable (c ∷ cs) = IsPrintable c × AllPrintable cs

-- A suite with one more test that has ended.
abbrev pub with_case : TestSuite → TestCase → TestSuite
with_case s c =
    counted c.status
      (record s { test_cases = s.test_cases ++ c ∷ []; total_tests = s.total_tests + 1 })

-- What the printed tests make of a suite.
unfoldable pub after : TestSuite → List TestCase → TestSuite
after s [] = s
after s (c ∷ cs) = after (with_case s c) cs

abbrev is_status : CaseStatus → CaseStatus → Bool
is_status running running = true
is_status passed passed = true
is_status failed failed = true
is_status skipped skipped = true
is_status _ _ = false

-- How many of the tests have a status.
pub how_many : CaseStatus → List TestCase → ℕ
how_many st [] = 0
how_many st (c ∷ cs) = (if is_status st c.status then 1 else 0) + how_many st cs

abbrev one_if : Bool → ℕ
one_if b = if b then 1 else 0

counted_lem :
    (st : CaseStatus) (s : TestSuite)
    → ((counted st s).test_cases ≡ s.test_cases)
      × ((counted st s).total_tests ≡ s.total_tests)
      × ((counted st s).passed_tests ≡ s.passed_tests + one_if (is_status passed st))
      × ((counted st s).failed_tests ≡ s.failed_tests + one_if (is_status failed st))
      × ((counted st s).skipped_tests ≡ s.skipped_tests + one_if (is_status skipped st))
unfolding counted
counted_lem running s = (refl, refl, omega arith, omega arith, omega arith)
counted_lem passed s = (refl, refl, omega arith, omega arith, omega arith)
counted_lem failed s = (refl, refl, omega arith, omega arith, omega arith)
counted_lem skipped s = (refl, refl, omega arith, omega arith, omega arith)

pub after_lem :
    (s : TestSuite) (cs : List TestCase)
    → ((after s cs).test_cases ≡ s.test_cases ++ cs)
      × ((after s cs).total_tests ≡ s.total_tests + length cs)
      × ((after s cs).passed_tests ≡ s.passed_tests + how_many passed cs)
      × ((after s cs).failed_tests ≡ s.failed_tests + how_many failed cs)
      × ((after s cs).skipped_tests ≡ s.skipped_tests + how_many skipped cs)
unfolding after how_many
after_lem s [] = (sym (append-nil s.test_cases), omega arith, omega arith, omega arith, omega arith)
after_lem s (c ∷ cs) =
    let t : TestSuite = record s {
      test_cases = s.test_cases ++ c ∷ [];
      total_tests = s.total_tests + 1;
    } in
    let (cases, total, p, f, k) = after_lem (with_case s c) cs in
    let (cases', total', p', f', k') = counted_lem c.status t in
    (
      cases ∙ rw (cases', append_assoc) refl,
      omega (arith, total, total'),
      omega (arith, p, p'),
      omega (arith, f, f'),
      omega (arith, k, k'),
    )

pub how_many_sum :
    (cs : List TestCase)
    → AllPrintable cs
    → length cs ≡ how_many passed cs + how_many failed cs + how_many skipped cs
unfolding how_many
how_many_sum [] h = omega arith
how_many_sum (c ∷ cs) h = one c.status h.0.0 (how_many_sum cs h.1)
  where
    one :
        (st : CaseStatus)
        → st ≢ running
        → length cs ≡ how_many passed cs + how_many failed cs + how_many skipped cs
        → suc (length cs)
          ≡ (one_if (is_status passed st) + how_many passed cs)
            + (one_if (is_status failed st) + how_many failed cs)
            + (one_if (is_status skipped st) + how_many skipped cs)
    one running n e = absurd (n refl)
    one passed n e = omega arith
    one failed n e = omega arith
    one skipped n e = omega arith
