-- ===== src/Report.antt =====
-- cmd/report-generator/main.go: the reading of a `go test -v` log, and the summary of all logs. The
-- proofs are in the modules below this one.
pub mod Tallies
pub mod Panics
pub mod Durations
pub mod Statuses
pub mod Printed
pub mod Subtests
pub mod Generated
pub mod Totals
pub mod Pages
use share_serial.Base.{
  ℕ, suc, ◌+◌, ◌-◌, Bool, true, false, ◌&&◌, Option, none, some, List, [], ◌∷◌, ◌++◌, Text, codes,
  has_prefix, trim_prefix, trim_space, index, cut, length, take, drop, ltb, leb, ◌==◌,
  if◌then◌else◌,
}

-- The values that the source gives to the field `Status` of a test case.
pub data CaseStatus : Type 0 where
  running passed failed skipped : CaseStatus

pub record TestCase : Type 0 where
  pub name : Text
  pub status : CaseStatus
  pub duration : Text

pub record TestSuite : Type 0 where
  pub name : Text
  pub package_name : Text
  pub total_tests : ℕ
  pub passed_tests : ℕ
  pub failed_tests : ℕ
  pub skipped_tests : ℕ
  pub test_cases : List TestCase
  pub status : Text

-- `line[start+1 : end]`, for the first of each parenthesis.
pub between : Text → Option ℕ → Option ℕ → Text
between line none j = codes "0s"
between line (some i) none = codes "0s"
between line (some i) (some j) =
    if ltb i j then take (j - (i + 1)) (drop (i + 1) line) else codes "0s"

pub extract_duration : Text → Text
unfolding index between
extract_duration line = between line (index b'(' line) (index b')' line)

-- A status and a duration for the last test case; `none` is the panic of the index -1.
pub finish_last : CaseStatus → Text → List TestCase → Option (List TestCase)
finish_last st d [] = none
finish_last st d (c ∷ []) = some (record c { status = st; duration = d } ∷ [])
finish_last st d (c ∷ e ∷ cs) = elim (finish_last st d (e ∷ cs)) [
  | none ↦ none
  | some fs ↦ some (c ∷ fs)
]

pub counted : CaseStatus → TestSuite → TestSuite
counted running s = s
counted passed s = record s { passed_tests = s.passed_tests + 1 }
counted failed s = record s { failed_tests = s.failed_tests + 1 }
counted skipped s = record s { skipped_tests = s.skipped_tests + 1 }

pub case_begins : TestSuite → Text → TestSuite
case_begins s line = record s {
  test_cases =
      s.test_cases
      ++ record { name = trim_prefix line (codes "=== RUN   "); status = running; duration = [] }
        ∷ [];
  total_tests = s.total_tests + 1;
}

pub case_ends : CaseStatus → TestSuite → Text → Option TestSuite
unfolding finish_last counted
case_ends st s line = elim (finish_last st (extract_duration line) s.test_cases) [
  | none ↦ none
  | some cs ↦ some (counted st (record s { test_cases = cs }))
]

pub suite_ends : TestSuite → Text → TestSuite
suite_ends s line =
    if has_prefix line (codes "FAIL")
    then record s { status = codes "FAIL"; name = trim_space (trim_prefix line (codes "FAIL")) }
    else if has_prefix line (codes "PASS")
    then record s { status = codes "PASS"; name = trim_space (trim_prefix line (codes "PASS")) }
    else s

-- The body of the loop over the lines.
unfoldable pub parse_line : TestSuite → Text → Option TestSuite
unfolding case_begins case_ends suite_ends
parse_line s line =
    if has_prefix line (codes "=== RUN")
    then some (case_begins s line)
    else if has_prefix line (codes "--- PASS")
    then case_ends passed s line
    else if has_prefix line (codes "--- FAIL")
    then case_ends failed s line
    else if has_prefix line (codes "--- SKIP")
    then case_ends skipped s line
    else some (suite_ends s line)

unfoldable pub parse_lines : TestSuite → List Text → Option TestSuite
parse_lines s [] = some s
parse_lines s (line ∷ lines) = elim (parse_line s line) [
  | none ↦ none
  | some t ↦ parse_lines t lines
]

pub empty_suite : Text → TestSuite
empty_suite package_name = record {
  name = [];
  package_name = package_name;
  total_tests = 0;
  passed_tests = 0;
  failed_tests = 0;
  skipped_tests = 0;
  test_cases = [];
  status = [];
}

-- `strings.Split(s, "\n")`, with the line that has begun.
unfoldable pub split_from : Text → Text → List Text
split_from line [] = line ∷ []
split_from line (c ∷ s) =
    let ended = line ∷ split_from [] s in
    let longer = split_from (line ++ c ∷ []) s in if c == 10 then ended else longer

-- What `ParseTestLog` makes of a file's content; `package_name` is the file's name with no `.log`.
pub parse_test_log : Text → Text → Option TestSuite
unfolding split_from parse_lines empty_suite
parse_test_log package_name content = parse_lines (empty_suite package_name) (split_from [] content)
