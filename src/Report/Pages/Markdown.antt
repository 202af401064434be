-- ===== src/Report/Pages/Markdown.antt =====
-- cmd/report-generator/main.go: the template of `SaveMarkdownReport`, line by line.
use share_serial.Base.{unlines, ℕ, List, [], ◌∷◌, ◌++◌, Text, codes, decimal}
use share_serial.Report.{TestCase, TestSuite}
use share_serial.Report.Generated.{TestReport, BuildInfo}
use share_serial.Report.Pages.{escape, status_text, pass_rate}

unfoldable pub case_row : TestCase → Text
case_row c =
    (codes "| "
      ++ (escape c.name
          ++ (codes " | "
              ++ (escape (status_text c.status)
                  ++ (codes " | " ++ (escape c.duration ++ codes " |"))))))

unfoldable pub case_rows : List TestCase → List Text
unfolding case_row
case_rows [] = []
case_rows (c ∷ cs) = case_row c ∷ case_rows cs

-- The duration of a suite is never set.
unfoldable pub suite_head : TestSuite → List Text
suite_head s =
    []
    ∷ (codes "### " ++ escape s.name)
    ∷ []
    ∷ (codes "- **状态:** " ++ escape s.status)
    ∷ (codes "- **测试数:** "
        ++ (decimal s.total_tests
            ++ (codes " (通过: "
                ++ (decimal s.passed_tests
                    ++ (codes ", 失败: "
                        ++ (decimal s.failed_tests
                            ++ (codes ", 跳过: " ++ (decimal s.skipped_tests ++ codes ")"))))))))
    ∷ (codes "- **耗时:** " ++ escape [])
    ∷ []
    ∷ codes "| 测试名称 | 状态 | 耗时 |"
    ∷ codes "|---------|------|------|"
    ∷ []

unfoldable pub suites_part : List TestSuite → List Text
unfolding suite_head case_rows
suites_part [] = []
suites_part (s ∷ ss) = suite_head s ++ (case_rows s.test_cases ++ ([] ∷ [] ∷ suites_part ss))

unfoldable pub artifact_rows : List BuildInfo → List Text
artifact_rows [] = []
artifact_rows (a ∷ rest) =
    (codes "| "
      ++ (escape a.name
          ++ (codes " | "
              ++ (escape a.path
                  ++ (codes " | "
                      ++ (decimal a.size
                          ++ (codes " bytes | " ++ (escape a.modified ++ codes " |"))))))))
    ∷ artifact_rows rest

unfoldable pub summary_part : (ℕ → ℕ → Text) → TestReport → List Text
summary_part percent r =
    codes "# ShareSerial 测试报告"
    ∷ []
    ∷ (codes "**生成时间:** " ++ escape r.timestamp)
    ∷ []
    ∷ (codes "**Git 版本:** "
        ++ (escape r.git_commit ++ (codes " (分支: " ++ (escape r.git_branch ++ codes ")"))))
    ∷ []
    ∷ (codes "**Go 版本:** " ++ escape r.go_version)
    ∷ []
    ∷ codes "---"
    ∷ []
    ∷ codes "## 测试摘要"
    ∷ []
    ∷ codes "| 指标 | 数值 |"
    ∷ codes "|------|------|"
    ∷ (codes "| 状态 | " ++ (escape r.summary.status ++ codes " |"))
    ∷ (codes "| 总测试数 | " ++ (decimal r.summary.total_tests ++ codes " |"))
    ∷ (codes "| 通过数 | " ++ (decimal r.summary.passed_tests ++ codes " |"))
    ∷ (codes "| 失败数 | " ++ (decimal r.summary.failed_tests ++ codes " |"))
    ∷ (codes "| 跳过数 | " ++ (decimal r.summary.skipped_tests ++ codes " |"))
    ∷ (codes "| 通过率 | " ++ (escape (pass_rate percent r.summary) ++ codes "% |"))
    ∷ []
    ∷ codes "---"
    ∷ []
    ∷ codes "## 测试套件详情"
    ∷ []
    ∷ []

-- What comes behind the suites.
unfoldable pub closing_part : TestReport → List Text
unfolding artifact_rows
closing_part r =
    let last =
      []
      ∷ []
      ∷ codes "---"
      ∷ []
      ∷ codes "## 测试环境"
      ∷ []
      ∷ (codes "- **操作系统:** " ++ escape r.environment.os)
      ∷ (codes "- **架构:** " ++ escape r.environment.arch)
      ∷ (codes "- **主机名:** " ++ escape r.environment.hostname)
      ∷ (codes "- **socat:** " ++ escape r.environment.socat)
      ∷ []
      ∷ codes "---"
      ∷ []
      ∷ (codes "*报告生成时间: " ++ (escape r.timestamp ++ codes "*"))
      ∷ [] in
    []
    ∷ []
    ∷ codes "---"
    ∷ []
    ∷ codes "## 构建产物"
    ∷ []
    ∷ codes "| 文件名 | 路径 | 大小 | 修改时间 |"
    ∷ codes "|--------|------|------|----------|"
    ∷ (artifact_rows r.build_artifacts ++ last)

unfoldable pub markdown_report : (ℕ → ℕ → Text) → TestReport → Text
unfolding summary_part suites_part closing_part
markdown_report percent r =
    unlines (summary_part percent r ++ (suites_part r.test_suites ++ closing_part r))
