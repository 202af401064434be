-- ===== src/Report/Pages/Tags/Contents.antt =====
-- cmd/report-generator/main.go: what the logs say cannot change the tags of the HTML report.
use share_serial.Base.{ℕ, ◌≡◌, refl, ap, false, List, [], ◌∷◌, Text, append-nil, unlines, sym, ◌∙◌}
use share_serial.Report.{TestCase, TestSuite}
use share_serial.Report.Generated.{TestReport, BuildInfo}
use share_serial.Report.Pages.Html.{
  html_head, html_summary, html_case, html_cases, html_suite_head, html_suite_end, html_suites,
  html_artifact, html_artifacts, html_middle, html_foot, html_report, html_lines,
}
use share_serial.Report.Pages.Tags.{tags, SameTags, SameTags-nil, SameTags-append, tag_laws}

-- Reports with the same statuses: as many suites, test cases and artefacts, each with its status.
abbrev pub SameCases : List TestCase → List TestCase → Type 0
SameCases [] [] = Unit {0}
SameCases [] (d ∷ ds) = ⊥
SameCases (c ∷ cs) [] = ⊥
SameCases (c ∷ cs) (d ∷ ds) = (c.status ≡ d.status) × SameCases cs ds

abbrev pub SameSuites : List TestSuite → List TestSuite → Type 0
SameSuites [] [] = Unit {0}
SameSuites [] (t ∷ ts) = ⊥
SameSuites (s ∷ ss) [] = ⊥
SameSuites (s ∷ ss) (t ∷ ts) =
    (s.status ≡ t.status) × SameCases s.test_cases t.test_cases × SameSuites ss ts

abbrev pub AsMany : List BuildInfo → List BuildInfo → Type 0
AsMany [] [] = Unit {0}
AsMany [] (b ∷ bs) = ⊥
AsMany (a ∷ rest) [] = ⊥
AsMany (a ∷ rest) (b ∷ bs) = AsMany rest bs

head-SameTags : SameTags html_head html_head
unfolding html_head tags
head-SameTags = record { same = λ t u e. simp e }

middle-SameTags : SameTags html_middle html_middle
unfolding html_middle tags
middle-SameTags = record { same = λ t u e. simp e }

suite_end-SameTags : SameTags html_suite_end html_suite_end
unfolding html_suite_end tags
suite_end-SameTags = record { same = λ t u e. simp e }

summary-SameTags :
    (percent percent' : ℕ → ℕ → Text) (r r' : TestReport)
    → r.summary.status ≡ r'.summary.status
    → SameTags (html_summary percent r) (html_summary percent' r')
unfolding html_summary tags
summary-SameTags percent percent' r r' same = record { same = λ t u e. simp (tag_laws, e, same) }

case-SameTags : (c c' : TestCase) → c.status ≡ c'.status → SameTags (html_case c) (html_case c')
unfolding html_case tags
case-SameTags c c' same = record { same = λ t u e. simp (tag_laws, e, same) }

suite_head-SameTags :
    (s s' : TestSuite) → s.status ≡ s'.status → SameTags (html_suite_head s) (html_suite_head s')
unfolding html_suite_head tags
suite_head-SameTags s s' same = record { same = λ t u e. simp (tag_laws, e, same) }

artifact-SameTags : (a a' : BuildInfo) → SameTags (html_artifact a) (html_artifact a')
unfolding html_artifact tags
artifact-SameTags a a' = record { same = λ t u e. simp (tag_laws, e) }

foot-SameTags : (r r' : TestReport) → SameTags (html_foot r) (html_foot r')
unfolding html_foot tags
foot-SameTags r r' = record { same = λ t u e. simp (tag_laws, e) }

cases-SameTags :
    (cs ds : List TestCase) → SameCases cs ds → SameTags (html_cases cs) (html_cases ds)
unfolding html_cases
cases-SameTags [] [] h = SameTags-nil
cases-SameTags [] (d ∷ ds) h = absurd h
cases-SameTags (c ∷ cs) [] h = absurd h
cases-SameTags (c ∷ cs) (d ∷ ds) h =
    SameTags-append (case-SameTags c d h.0) (cases-SameTags cs ds h.1)

suites-SameTags :
    (ss ts : List TestSuite) → SameSuites ss ts → SameTags (html_suites ss) (html_suites ts)
unfolding html_suites
suites-SameTags [] [] h = SameTags-nil
suites-SameTags [] (t ∷ ts) h = absurd h
suites-SameTags (s ∷ ss) [] h = absurd h
suites-SameTags (s ∷ ss) (t ∷ ts) h = SameTags-append (suite_head-SameTags s t h.0) (
    SameTags-append (cases-SameTags s.test_cases t.test_cases h.1)
      (SameTags-append suite_end-SameTags (suites-SameTags ss ts h.2)))

artifacts-SameTags :
    (as' bs : List BuildInfo) → AsMany as' bs → SameTags (html_artifacts as') (html_artifacts bs)
unfolding html_artifacts
artifacts-SameTags [] [] h = SameTags-nil
artifacts-SameTags [] (b ∷ bs) h = absurd h
artifacts-SameTags (a ∷ rest) [] h = absurd h
artifacts-SameTags (a ∷ rest) (b ∷ bs) h =
    SameTags-append (artifact-SameTags a b) (artifacts-SameTags rest bs h)

report-SameTags :
    (percent percent' : ℕ → ℕ → Text) (r r' : TestReport)
    → r.summary.status ≡ r'.summary.status
    → SameSuites r.test_suites r'.test_suites
    → AsMany r.build_artifacts r'.build_artifacts
    → SameTags (html_lines percent r) (html_lines percent' r')
unfolding html_lines
report-SameTags percent percent' r r' status suites artifacts = SameTags-append head-SameTags (
    SameTags-append (summary-SameTags percent percent' r r' status) (
      SameTags-append (suites-SameTags r.test_suites r'.test_suites suites) (
        SameTags-append middle-SameTags (
          SameTags-append (artifacts-SameTags r.build_artifacts r'.build_artifacts artifacts)
            (foot-SameTags r r')))))

-- What stands in the logs cannot change the tags of the HTML report: two reports with as many suites,
-- test cases and artefacts, and with the same statuses, have pages with the same tags, attributes
-- included, whatever the names, durations, numbers and other texts are.
pub html_report-tags :
    (percent percent' : ℕ → ℕ → Text) (r r' : TestReport)
    → r.summary.status ≡ r'.summary.status
    → SameSuites r.test_suites r'.test_suites
    → AsMany r.build_artifacts r'.build_artifacts
    → tags false (html_report percent r) ≡ tags false (html_report percent' r')
unfolding html_report
html_report-tags percent percent' r r' status suites artifacts =
    let all = (report-SameTags percent percent' r r' status suites artifacts).same [] [] refl in
    ap (tags false) (sym (append-nil (unlines (html_lines percent r))))
    ∙ all
    ∙ ap (tags false) (append-nil (unlines (html_lines percent' r')))
