-- ===== src/Report/Generated.antt =====
-- cmd/report-generator/main.go: `GenerateReport`, which puts the logs of the test runs together.
use share_serial.Base.{
  ℕ, ◌+◌, ◌-◌, Bool, ◌&&◌, not, Option, none, some, List, [], ◌∷◌, ◌++◌, Text, codes, cut, ltb, leb,
  ◌==◌, if◌then◌else◌,
}
use share_serial.Report.{TestSuite, parse_test_log}

-- The rate of passed tests, a floating-point number that is computed from two of these numbers, and
-- `Duration`, which is never set, are left out.
pub record TestSummary : Type 0 where
  pub total_tests : ℕ
  pub passed_tests : ℕ
  pub failed_tests : ℕ
  pub skipped_tests : ℕ
  pub status : Text

pub record BuildInfo : Type 0 where
  pub name : Text
  pub path : Text
  pub size : ℕ
  pub modified : Text

pub record Environment : Type 0 where
  pub os : Text
  pub arch : Text
  pub hostname : Text
  pub socat : Text

pub record TestReport : Type 0 where
  pub timestamp : Text
  pub git_commit : Text
  pub git_branch : Text
  pub go_version : Text
  pub summary : TestSummary
  pub test_suites : List TestSuite
  pub build_artifacts : List BuildInfo
  pub environment : Environment

-- `strings.Replace(s, old, "", 1)`
unfoldable pub without : Text → Text → Text
without s old = elim (cut s old) [ none ↦ s | some (before, behind) ↦ before ++ behind ]

-- `strings.ToUpper(s[:1]) + s[1:]`, for ASCII text; the names of the log files are not empty.
capital : Text → Text
capital [] = []
capital (c ∷ s) = (if leb b'a' c && leb c b'z' then c - 32 else c) ∷ s

unfoldable pub suite_name : Text → Text
unfolding without capital
suite_name file = capital (without (without file (codes "_output.log")) (codes "_test"))

unfoldable pub add_suite : TestReport → Text → TestSuite → TestReport
unfolding suite_name
add_suite r file s =
    let sum = r.summary in
    record r {
      summary = record sum {
        total_tests = sum.total_tests + s.total_tests;
        passed_tests = sum.passed_tests + s.passed_tests;
        failed_tests = sum.failed_tests + s.failed_tests;
        skipped_tests = sum.skipped_tests + s.skipped_tests;
      };
      test_suites = r.test_suites ++ record s { name = suite_name file } ∷ [];
    }

-- The loop over the log files; a file that is not there is passed over, and `none` is a panic.
unfoldable pub add_logs : (Text → Option Text) → TestReport → List Text → Option TestReport
unfolding parse_test_log add_suite
add_logs files r [] = some r
add_logs files r (file ∷ rest) = elim (files file) [
  | none ↦ add_logs files r rest
  | some content ↦ elim (parse_test_log (without file (codes ".log")) content) [
    | none ↦ none
    | some s ↦ add_logs files (add_suite r file s) rest
  ]
]

get_environment : Environment
get_environment = record {
  os = codes "linux";
  arch = codes "amd64";
  hostname = codes "localhost";
  socat = codes "installed";
}

-- `getGitCommit`, `getGitBranch` and `getGoVersion` give constants.
unfoldable pub new_report : Text → TestReport
unfolding get_environment
new_report now = record {
  timestamp = now;
  git_commit = codes "N/A";
  git_branch = codes "main";
  go_version = codes "go1.21";
  summary = record {
    total_tests = 0;
    passed_tests = 0;
    failed_tests = 0;
    skipped_tests = 0;
    status = [];
  };
  test_suites = [];
  build_artifacts = [];
  environment = get_environment;
}

abbrev pub log_files : List Text
log_files =
    codes "unit_test_output.log"
    ∷ codes "e2e_test_output.log"
    ∷ codes "simulation_test_output.log"
    ∷ []

unfoldable pub report_status : TestSummary → Text
report_status sum =
    if sum.failed_tests == 0
    then (if ltb 0 sum.passed_tests then codes "passed" else codes "no_tests")
    else if ltb sum.failed_tests sum.passed_tests
    then codes "partial"
    else codes "failed"

-- An entry of the directory bin, as `ioutil.ReadDir` gives it.
pub record FileInfo : Type 0 where
  pub name : Text
  pub is_dir : Bool
  pub size : ℕ
  pub modified : Text

artifacts_of : List FileInfo → List BuildInfo
artifacts_of [] = []
artifacts_of (f ∷ fs) =
    let rest = artifacts_of fs in
    if not f.is_dir
    then record {
      name = f.name;
      path = codes "bin/" ++ f.name;
      size = f.size;
      modified = f.modified;
    }
      ∷ rest
    else rest

-- The status of the summary, and the files of the directory bin if it can be read.
unfoldable pub complete : Option (List FileInfo) → TestReport → TestReport
unfolding report_status artifacts_of
complete bin r =
    let sum = r.summary in
    record r {
      summary = record sum { status = report_status sum };
      build_artifacts = elim bin [
        | none ↦ r.build_artifacts
        | some fs ↦ r.build_artifacts ++ artifacts_of fs
      ];
    }

unfoldable pub generate_report :
    Text → (Text → Option Text) → Option (List FileInfo) → Option TestReport
unfolding add_logs new_report complete
generate_report now files bin = elim (add_logs files (new_report now) log_files) [
  | none ↦ none
  | some r ↦ some (complete bin r)
]
