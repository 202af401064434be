-- ===== src/Report/Pages/Html.antt =====
-- cmd/report-generator/main.go: the template of `SaveHTMLReport`, line by line. A line on which a loop
-- begins or ends keeps its blanks.
use share_serial.Base.{unlines, ℕ, List, [], ◌∷◌, ◌++◌, Text, codes, decimal}
use share_serial.Report.{TestCase, TestSuite}
use share_serial.Report.Generated.{TestReport, BuildInfo}
use share_serial.Report.Pages.{escape, status_text, lower, pass_rate}

-- The lines before the first value.
unfoldable pub html_head : List Text
html_head =
    codes "<!DOCTYPE html>"
    ∷ codes "<html lang=\"zh-CN\">"
    ∷ codes "<head>"
    ∷ codes "    <meta charset=\"UTF-8\">"
    ∷ codes "    <meta name=\"viewport\" content=\"width=device-width, initial-scale=1.0\">"
    ∷ codes "    <title>ShareSerial 测试报告</title>"
    ∷ codes "    <style>"
    ∷ (codes "        body { font-family: -apple-system, BlinkMacSystemFont, 'Segoe UI', Roboto, "
        ++ codes "Oxygen, Ubuntu, sans-serif; margin: 20px; background: #f5f5f5; }")
    ∷ (codes "        .container { max-width: 1200px; margin: 0 auto; background: white; padding: "
        ++ codes "30px; border-radius: 8px; box-shadow: 0 2px 4px rgba(0,0,0,0.1); }")
    ∷ codes "        h1 { color: #333; border-bottom: 2px solid #4CAF50; padding-bottom: 10px; }"
    ∷ codes "        h2 { color: #666; margin-top: 30px; }"
    ∷ codes "        h3 { color: #444; margin-top: 20px; }"
    ∷ codes "        table { width: 100%; border-collapse: collapse; margin-top: 15px; }"
    ∷ codes "        th, td { padding: 12px; text-align: left; border-bottom: 1px solid #ddd; }"
    ∷ codes "        th { background: #f8f9fa; font-weight: 600; }"
    ∷ codes "        .status-passed { color: #4CAF50; font-weight: bold; }"
    ∷ codes "        .status-failed { color: #f44336; font-weight: bold; }"
    ∷ codes "        .status-partial { color: #FF9800; font-weight: bold; }"
    ∷ codes "        .status-no_tests { color: #9E9E9E; }"
    ∷ codes "        .badge { padding: 4px 8px; border-radius: 4px; font-size: 12px; }"
    ∷ codes "        .badge-pass { background: #E8F5E9; color: #2E7D32; }"
    ∷ codes "        .badge-fail { background: #FFEBEE; color: #C62828; }"
    ∷ codes "        .badge-skip { background: #FFF3E0; color: #EF6C00; }"
    ∷ (codes "        .summary-box { background: #f8f9fa; padding: 20px; border-radius: 8px; "
        ++ codes "margin-bottom: 20px; }")
    ∷ codes "        .summary-box h2 { margin-top: 0; }"
    ∷ codes "        .metric { display: inline-block; margin-right: 30px; }"
    ∷ codes "        .metric-label { color: #666; font-size: 14px; }"
    ∷ codes "        .metric-value { color: #333; font-size: 24px; font-weight: bold; }"
    ∷ codes "        .timestamp { color: #666; font-size: 14px; }"
    ∷ (codes "        footer { margin-top: 30px; padding-top: 20px; border-top: 1px solid #ddd; "
        ++ codes "color: #666; font-size: 14px; }")
    ∷ []

unfoldable pub html_summary : (ℕ → ℕ → Text) → TestReport → List Text
html_summary percent r =
    codes "    </style>"
    ∷ codes "</head>"
    ∷ codes "<body>"
    ∷ codes "    <div class=\"container\">"
    ∷ codes "        <h1>ShareSerial 测试报告</h1>"
    ∷ (codes "        <p class=\"timestamp\">生成时间: "
        ++ (escape r.timestamp
            ++ (codes " | Git: "
                ++ (escape r.git_commit
                    ++ (codes " ("
                        ++ (escape r.git_branch
                            ++ (codes ") | Go: " ++ (escape r.go_version ++ codes "</p>"))))))))
    ∷ []
    ∷ codes "        <div class=\"summary-box\">"
    ∷ codes "            <h2>测试摘要</h2>"
    ∷ codes "            <div class=\"metric\">"
    ∷ codes "                <div class=\"metric-label\">状态</div>"
    ∷ (codes "                <div class=\"metric-value status-"
        ++ (escape r.summary.status
            ++ (codes "\">" ++ (escape r.summary.status ++ codes "</div>"))))
    ∷ codes "            </div>"
    ∷ codes "            <div class=\"metric\">"
    ∷ codes "                <div class=\"metric-label\">总测试数</div>"
    ∷ (codes "                <div class=\"metric-value\">"
        ++ (decimal r.summary.total_tests ++ codes "</div>"))
    ∷ codes "            </div>"
    ∷ codes "            <div class=\"metric\">"
    ∷ codes "                <div class=\"metric-label\">通过数</div>"
    ∷ (codes "                <div class=\"metric-value\">"
        ++ (decimal r.summary.passed_tests ++ codes "</div>"))
    ∷ codes "            </div>"
    ∷ codes "            <div class=\"metric\">"
    ∷ codes "                <div class=\"metric-label\">失败数</div>"
    ∷ (codes "                <div class=\"metric-value\">"
        ++ (decimal r.summary.failed_tests ++ codes "</div>"))
    ∷ codes "            </div>"
    ∷ codes "            <div class=\"metric\">"
    ∷ codes "                <div class=\"metric-label\">通过率</div>"
    ∷ (codes "                <div class=\"metric-value\">"
        ++ (escape (pass_rate percent r.summary) ++ codes "%</div>"))
    ∷ codes "            </div>"
    ∷ codes "        </div>"
    ∷ []
    ∷ codes "        <h2>测试套件详情</h2>"
    ∷ codes "        "
    ∷ []

unfoldable pub html_case : TestCase → List Text
html_case c =
    codes "                <tr>"
    ∷ (codes "                    <td>" ++ (escape c.name ++ codes "</td>"))
    ∷ (codes "                    <td><span class=\"badge badge-"
        ++ (escape (lower (status_text c.status))
            ++ (codes "\">" ++ (escape (status_text c.status) ++ codes "</span></td>"))))
    ∷ (codes "                    <td>" ++ (escape c.duration ++ codes "</td>"))
    ∷ codes "                </tr>"
    ∷ codes "                "
    ∷ []

unfoldable pub html_cases : List TestCase → List Text
unfolding html_case
html_cases [] = []
html_cases (c ∷ cs) = html_case c ++ html_cases cs

unfoldable pub html_suite_head : TestSuite → List Text
html_suite_head s =
    (codes "        <h3>"
      ++ (escape s.name
          ++ (codes " <span class=\"status-"
              ++ (escape s.status
                  ++ (codes "\">(" ++ (escape s.status ++ codes ")</span></h3>"))))))
    ∷ (codes "        <p>测试数: "
        ++ (decimal s.total_tests
            ++ (codes " | 通过: "
                ++ (decimal s.passed_tests
                    ++ (codes " | 失败: "
                        ++ (decimal s.failed_tests
                            ++ (codes " | 跳过: " ++ (decimal s.skipped_tests ++ codes "</p>"))))))))
    ∷ codes "        <table>"
    ∷ codes "            <thead>"
    ∷ codes "                <tr>"
    ∷ codes "                    <th>测试名称</th>"
    ∷ codes "                    <th>状态</th>"
    ∷ codes "                    <th>耗时</th>"
    ∷ codes "                </tr>"
    ∷ codes "            </thead>"
    ∷ codes "            <tbody>"
    ∷ codes "                "
    ∷ []

unfoldable pub html_suite_end : List Text
html_suite_end = codes "            </tbody>" ∷ codes "        </table>" ∷ codes "        " ∷ []

unfoldable pub html_suites : List TestSuite → List Text
unfolding html_suite_head html_cases html_suite_end
html_suites [] = []
html_suites (s ∷ ss) =
    html_suite_head s ++ (html_cases s.test_cases ++ (html_suite_end ++ html_suites ss))

unfoldable pub html_artifact : BuildInfo → List Text
html_artifact a =
    codes "                <tr>"
    ∷ (codes "                    <td>" ++ (escape a.name ++ codes "</td>"))
    ∷ (codes "                    <td>" ++ (escape a.path ++ codes "</td>"))
    ∷ (codes "                    <td>" ++ (decimal a.size ++ codes " bytes</td>"))
    ∷ (codes "                    <td>" ++ (escape a.modified ++ codes "</td>"))
    ∷ codes "                </tr>"
    ∷ codes "                "
    ∷ []

unfoldable pub html_artifacts : List BuildInfo → List Text
unfolding html_artifact
html_artifacts [] = []
html_artifacts (a ∷ rest) = html_artifact a ++ html_artifacts rest

unfoldable pub html_middle : List Text
html_middle =
    []
    ∷ codes "        <h2>构建产物</h2>"
    ∷ codes "        <table>"
    ∷ codes "            <thead>"
    ∷ codes "                <tr>"
    ∷ codes "                    <th>文件名</th>"
    ∷ codes "                    <th>路径</th>"
    ∷ codes "                    <th>大小</th>"
    ∷ codes "                    <th>修改时间</th>"
    ∷ codes "                </tr>"
    ∷ codes "            </thead>"
    ∷ codes "            <tbody>"
    ∷ codes "                "
    ∷ []

unfoldable pub html_foot : TestReport → List Text
html_foot r =
    codes "            </tbody>"
    ∷ codes "        </table>"
    ∷ []
    ∷ codes "        <h2>测试环境</h2>"
    ∷ codes "        <table>"
    ∷ (codes "            <tr><th>操作系统</th><td>" ++ (escape r.environment.os ++ codes "</td></tr>"))
    ∷ (codes "            <tr><th>架构</th><td>" ++ (escape r.environment.arch ++ codes "</td></tr>"))
    ∷ (codes "            <tr><th>主机名</th><td>"
        ++ (escape r.environment.hostname ++ codes "</td></tr>"))
    ∷ (codes "            <tr><th>socat</th><td>"
        ++ (escape r.environment.socat ++ codes "</td></tr>"))
    ∷ codes "        </table>"
    ∷ []
    ∷ codes "        <footer>"
    ∷ (codes "            <p>报告生成时间: " ++ (escape r.timestamp ++ codes "</p>"))
    ∷ codes "        </footer>"
    ∷ codes "    </div>"
    ∷ codes "</body>"
    ∷ codes "</html>"
    ∷ []

unfoldable pub html_lines : (ℕ → ℕ → Text) → TestReport → List Text
unfolding html_head html_summary html_suites html_middle html_artifacts html_foot
html_lines percent r =
    html_head
    ++ (html_summary percent r
        ++ (html_suites r.test_suites
            ++ (html_middle ++ (html_artifacts r.build_artifacts ++ html_foot r))))

unfoldable pub html_report : (ℕ → ℕ → Text) → TestReport → Text
unfolding html_lines
html_report percent r = unlines (html_lines percent r)
