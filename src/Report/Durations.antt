-- ===== src/Report/Durations.antt =====
-- cmd/report-generator/main.go: the duration in a result line is found.
use share_serial.Base.{
  ℕ, suc, ◌+◌, ◌-◌, ◌≡◌, refl, ap, sym, ◌∙◌, some, [], ◌∷◌, ◌++◌, append_assoc, Text, codes, index,
  index-append, Lacks, Lacks-append, length, length-append, drop, take-length_append, lt→ltb, arith,
}
use share_serial.Report.{CaseStatus, running, passed, failed, skipped, between, extract_duration}

-- How `go test -v` marks a result; a test that has not ended has none.
abbrev pub mark : CaseStatus → Text
mark running = []
mark passed = codes "--- PASS: "
mark failed = codes "--- FAIL: "
mark skipped = codes "--- SKIP: "

abbrev pub head : CaseStatus → Text → Text
head st name = mark st ++ (name ++ codes " ")

abbrev pub end_line : CaseStatus → Text → Text → Text
end_line st name duration = head st name ++ (b'(' ∷ (duration ++ b')' ∷ []))

pub head-Lacks :
    (b : ℕ) (st : CaseStatus) (name : Text)
    → Lacks b (codes "--- PASS: FAIL: SKIP: ")
    → Lacks b name
    → Lacks b (head st name)
head-Lacks b running name h k = Lacks-append b name (codes " ") k (ground arith)
head-Lacks b passed name h k =
    Lacks-append b (mark passed) (name ++ codes " ") (ground arith)
      (Lacks-append b name (codes " ") k (ground arith))
head-Lacks b failed name h k =
    Lacks-append b (mark failed) (name ++ codes " ") (ground arith)
      (Lacks-append b name (codes " ") k (ground arith))
head-Lacks b skipped name h k =
    Lacks-append b (mark skipped) (name ++ codes " ") (ground arith)
      (Lacks-append b name (codes " ") k (ground arith))

drop_past :
    (before : Text) (b : ℕ) (rest : Text) → drop (length before + 1) (before ++ b ∷ rest) ≡ rest
drop_past [] b rest = refl
drop_past (c ∷ before) b rest =
    let e : length (c ∷ before) + 1 ≡ suc (length before + 1) = omega arith in
    ap (λ (n : ℕ). drop n (c ∷ (before ++ b ∷ rest))) e ∙ drop_past before b rest

-- What stands between the parentheses.
between_lem :
    (before d after : Text)
    → between
        (before ++ (b'(' ∷ (d ++ after)))
        (some (length before))
        (some (length (before ++ (b'(' ∷ d))))
      ≡ d
unfolding between
between_lem before d after =
    let long = length-append before (b'(' ∷ d) in
    let past = drop_past before b'(' (d ++ after) in
    let inside : length (before ++ (b'(' ∷ d)) - (length before + 1) ≡ length d =
      omega (arith, long) in
    rw (lt→ltb (length before) (length (before ++ (b'(' ∷ d))) (omega (arith, long)), past, inside)
      (take-length_append d after)

pub extract_duration-end_line :
    (st : CaseStatus) (name d : Text)
    → Lacks b'(' name
    → Lacks b')' name
    → Lacks b')' d
    → extract_duration (end_line st name d) ≡ d
unfolding extract_duration
extract_duration-end_line st name d h k l =
    let before = head st name in
    let i : index b'(' (end_line st name d) ≡ some (length before) =
      index-append b'(' before (d ++ b')' ∷ []) (head-Lacks b'(' st name (ground arith) h) in
    let j : index b')' (end_line st name d) ≡ some (length (before ++ (b'(' ∷ d))) =
      ap (index b')') (sym (append_assoc before (b'(' ∷ d) (b')' ∷ [])))
      ∙ index-append b')' (before ++ (b'(' ∷ d)) [] (
          Lacks-append b')' before (b'(' ∷ d) (head-Lacks b')' st name (ground arith) k)
            (refl, l)) in
    rw (i, j) (between_lem before d (b')' ∷ []))
