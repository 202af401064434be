-- ===== src/Report/Pages/Saved.antt =====
-- cmd/report-generator/main.go: `main`, and the files that it writes.
use share_serial.Base.{if◌then◌else◌, ℕ, Bool, Option, none, some, List, [], ◌∷◌, ◌++◌, Text, codes}
use share_serial.Report.Generated.{TestReport, FileInfo, generate_report}
use share_serial.Report.Pages.Markdown.{markdown_report}
use share_serial.Report.Pages.Html.{html_report}

-- What the program is given: the texts of the time in its two formats, the files of the directory for
-- reports, those of the directory bin, which files can be created, the library's JSON, and the text of
-- the rate of passed tests.
pub record World : Type 0 where
  pub now : Text
  pub stamp : Text
  pub report_dir : Text
  pub logs : Text → Option Text
  pub bin : Option (List FileInfo)
  pub can_create : Text → Bool
  pub marshal : TestReport → Option Text
  pub percent : ℕ → ℕ → Text

-- `filepath.Join(rg.reportDir, fmt.Sprintf("report_%s.md", timestamp))`, and so for the other formats.
pub report_path : World → Text → Text
report_path w extension =
    w.report_dir ++ (codes "/report_" ++ (w.stamp ++ (codes "." ++ extension)))

-- A file that cannot be created is left out: `main` ignores the error.
unfoldable pub save_file : World → Text → Text → List (Text × Text)
unfolding report_path
save_file w extension content =
    if w.can_create (report_path w extension) then (report_path w extension, content) ∷ [] else []

pub save_json_report : World → TestReport → List (Text × Text)
unfolding save_file
save_json_report w r = elim (w.marshal r) [
  | none ↦ []
  | some content ↦ save_file w (codes "json") content
]

-- The files that `main` writes, with their texts; `none` is a panic.
unfoldable pub main_files : World → Option (List (Text × Text))
main_files w = elim (generate_report w.now w.logs w.bin) [
  | none ↦ none
  | some r ↦ some (
      save_file w (codes "md") (markdown_report w.percent r)
      ++ (save_file w (codes "html") (html_report w.percent r) ++ save_json_report w r))
]
