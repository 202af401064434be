-- ===== src/Report/Pages.antt =====
-- cmd/report-generator/main.go: how html/template, which both pages are made with, writes a
-- value. A page is a list of lines, and these are lists of code points.
pub mod Markdown
pub mod Tables
pub mod Html
pub mod Tags
pub mod Saved
pub mod Shown
use share_serial.Base.{
  ℕ, ◌+◌, ◌≡◌, refl, ap, Bool, true, false, ◌&&◌, Option, none, some, List, [], ◌∷◌, ◌++◌,
  append_assoc, Text, codes, Lacks, Lacks-append, ltb, leb, ◌==◌, if◌then◌else◌, arith, inl, inr,
  Bool-cases, text_eq,
}
use share_serial.Report.{CaseStatus, running, passed, failed, skipped}
use share_serial.Report.Generated.{TestSummary}

-- A character as html/template writes it in the text of a page and in a quoted attribute.
unfoldable pub escape_char : ℕ → Text
escape_char c =
    if c == b'&'
    then codes "&amp;"
    else if c == b'<'
    then codes "&lt;"
    else if c == b'>'
    then codes "&gt;"
    else if c == 34
    then codes "&#34;"
    else if c == 39
    then codes "&#39;"
    else if c == b'+'
    then codes "&#43;"
    else if c == 0
    then 0xfffd ∷ []
    else c ∷ []

-- Numbers are written as they are: their digits are not changed.
unfoldable pub escape : Text → Text
unfolding escape_char
escape [] = []
escape (c ∷ s) = escape_char c ++ escape s

unfoldable pub status_text : CaseStatus → Text
status_text running = codes "RUNNING"
status_text passed = codes "PASS"
status_text failed = codes "FAIL"
status_text skipped = codes "SKIP"

-- `strings.ToLower`, for ASCII text.
unfoldable pub lower : Text → Text
lower [] = []
lower (c ∷ s) = (if leb b'A' c && leb c b'Z' then c + 32 else c) ∷ lower s

-- `printf "%.2f"` of the rate of passed tests, which is 0 if there are no tests; `percent` is the text of
-- `float64(passed) / float64(total) * 100`.
unfoldable pub pass_rate : (ℕ → ℕ → Text) → TestSummary → Text
pass_rate percent sum =
    if ltb 0 sum.total_tests then percent sum.passed_tests sum.total_tests else codes "0.00"
