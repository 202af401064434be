-- ===== src/Report/Pages/Tables/Lines.antt =====
-- cmd/report-generator/main.go: the lines of the Markdown report hold no line feed of their own.
use share_serial.Base.{
  inl, ℕ, ◌≡◌, refl, ap, sym, ◌∙◌, false, List, [], ◌∷◌, ◌++◌, append_assoc, Text, codes, unlines,
  member, member-append, Lacks-member, arith, decimal, member-decimal,
}
use share_serial.Report.{TestCase, TestSuite, split_from}
use share_serial.Report.Generated.{TestReport}
use share_serial.Report.Printed.{split_from-line}
use share_serial.Report.Pages.{escape, status_text, pass_rate}
use share_serial.Report.Pages.Markdown.{case_row, case_rows, suite_head, suites_part, summary_part}
use share_serial.Report.Pages.Tables.Rows.{Clean, status_text-Clean, member-escape}

abbrev pub Unbroken : Text → Type 0
Unbroken s = member 10 s ≡ false

abbrev pub AllUnbroken : List Text → Type 0
AllUnbroken [] = Unit {0}
AllUnbroken (l ∷ ls) = Unbroken l × AllUnbroken ls

append-Unbroken : (s t : Text) → Unbroken s → Unbroken t → Unbroken (s ++ t)
append-Unbroken s t h k = member-append 10 s t ∙ rw h k

AllUnbroken-append : (ls ms : List Text) → AllUnbroken ls → AllUnbroken ms → AllUnbroken (ls ++ ms)
AllUnbroken-append [] ms h k = k
AllUnbroken-append (l ∷ ls) ms h k = (h.0, AllUnbroken-append ls ms h.1 k)

escape-Unbroken : (s : Text) → Unbroken s → Unbroken (escape s)
escape-Unbroken s h = member-escape 10 s refl h

decimal-Unbroken : (n : ℕ) → Unbroken (decimal n)
decimal-Unbroken n = member-decimal 10 n (inl (omega arith))

-- What a value and the text behind it make of a line.
value_then : (s t : Text) → Unbroken s → Unbroken t → Unbroken (escape s ++ t)
value_then s t h k = append-Unbroken (escape s) t (escape-Unbroken s h) k

number_then : (n : ℕ) (t : Text) → Unbroken t → Unbroken (decimal n ++ t)
number_then n t k = append-Unbroken (decimal n) t (decimal-Unbroken n) k

case_row-Unbroken : (c : TestCase) → Clean c.name → Clean c.duration → Unbroken (case_row c)
unfolding case_row
case_row-Unbroken c n d = value_then c.name _ n.1 (
    value_then (status_text c.status) _ (status_text-Clean c.status).1
      (value_then c.duration (codes " |") d.1 refl))

-- A page that begins with unbroken lines is split into them.
pub split_from-unlines :
    (ls : List Text) (rest : Text)
    → AllUnbroken ls
    → split_from [] (unlines ls ++ rest) ≡ ls ++ split_from [] rest
split_from-unlines [] rest h = refl
split_from-unlines (l ∷ ls) rest h =
    ap (split_from []) (append_assoc l (10 ∷ unlines ls) rest)
    ∙ split_from-line l [] (unlines ls ++ rest) (Lacks-member 10 l h.0)
    ∙ ap (◌∷◌ l) (split_from-unlines ls rest h.1)

pub unlines-append : (ls ms : List Text) → unlines (ls ++ ms) ≡ unlines ls ++ unlines ms
unlines-append [] ms = refl
unlines-append (l ∷ ls) ms =
    ap (λ (t : Text). l ++ (10 ∷ t)) (unlines-append ls ms)
    ∙ sym (append_assoc l (10 ∷ unlines ls) (unlines ms))

-- A report whose texts each fit on a line, and whose names and durations fit in a cell.
abbrev pub CleanCases : List TestCase → Type 0
CleanCases [] = Unit {0}
CleanCases (c ∷ cs) = Clean c.name × Clean c.duration × CleanCases cs

abbrev pub CleanSuites : List TestSuite → Type 0
CleanSuites [] = Unit {0}
CleanSuites (s ∷ ss) =
    Unbroken s.name × Unbroken s.status × CleanCases s.test_cases × CleanSuites ss

pub record CleanReport (percent : ℕ → ℕ → Text) (r : TestReport) : Type 0 where
  pub timestamp : Unbroken r.timestamp
  pub git_commit : Unbroken r.git_commit
  pub git_branch : Unbroken r.git_branch
  pub go_version : Unbroken r.go_version
  pub status : Unbroken r.summary.status
  pub rate : Unbroken (pass_rate percent r.summary)
  pub suites : CleanSuites r.test_suites

case_rows-AllUnbroken : (cs : List TestCase) → CleanCases cs → AllUnbroken (case_rows cs)
unfolding case_rows
case_rows-AllUnbroken [] h = tt
case_rows-AllUnbroken (c ∷ cs) h = (case_row-Unbroken c h.0 h.1, case_rows-AllUnbroken cs h.2)

suite_head-AllUnbroken :
    (s : TestSuite) → Unbroken s.name → Unbroken s.status → AllUnbroken (suite_head s)
unfolding suite_head
suite_head-AllUnbroken s n st = (
  refl,
  (
    escape-Unbroken s.name n,
    (
      refl,
      (
        escape-Unbroken s.status st,
        (
          number_then s.total_tests _ (
              number_then s.passed_tests _
                (number_then s.failed_tests _ (number_then s.skipped_tests (codes ")") refl))),
          (escape-Unbroken [] refl, (refl, (refl, (refl, tt)))),
        ),
      ),
    ),
  ),
)

pub suites_part-AllUnbroken : (ss : List TestSuite) → CleanSuites ss → AllUnbroken (suites_part ss)
unfolding suites_part
suites_part-AllUnbroken [] h = tt
suites_part-AllUnbroken (s ∷ ss) h =
    AllUnbroken-append (suite_head s) _ (suite_head-AllUnbroken s h.0 h.1) (
      AllUnbroken-append (case_rows s.test_cases) _ (case_rows-AllUnbroken s.test_cases h.2)
        (refl, (refl, suites_part-AllUnbroken ss h.3)))

pub summary_part-AllUnbroken :
    (percent : ℕ → ℕ → Text) (r : TestReport)
    → CleanReport percent r
    → AllUnbroken (summary_part percent r)
unfolding summary_part
summary_part-AllUnbroken percent r h = (
  refl,
  (
    refl,
    (
      escape-Unbroken r.timestamp h.timestamp,
      (
        refl,
        (
          value_then r.git_commit _ h.git_commit
              (value_then r.git_branch (codes ")") h.git_branch refl),
          (
            refl,
            (
              escape-Unbroken r.go_version h.go_version,
              (
                refl,
                (
                  refl,
                  (
                    refl,
                    (
                      refl,
                      (
                        refl,
                        (
                          refl,
                          (
                            refl,
                            (
                              value_then r.summary.status (codes " |") h.status refl,
                              (
                                number_then r.summary.total_tests (codes " |") refl,
                                (
                                  number_then r.summary.passed_tests (codes " |") refl,
                                  (
                                    number_then r.summary.failed_tests (codes " |") refl,
                                    (
                                      number_then r.summary.skipped_tests (codes " |") refl,
                                      (
                                        value_then (pass_rate percent r.summary) (codes "% |")
                                            h.rate refl,
                                        (refl, (refl, (refl, (refl, (refl, tt))))),
                                      ),
                                    ),
                                  ),
                                ),
                              ),
                            ),
                          ),
                        ),
                      ),
                    ),
                  ),
                ),
              ),
            ),
          ),
        ),
      ),
    ),
  ),
)
