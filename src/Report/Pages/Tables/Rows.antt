-- ===== src/Report/Pages/Tables/Rows.antt =====
-- cmd/report-generator/main.go: a row of the Markdown report is read back.
use share_serial.Base.{
  ℕ, ◌≡◌, refl, ap, sym, ◌∙◌, false, true, none, [], ◌∷◌, ◌++◌, append_assoc, Text, codes, text_eq,
  member, member-append, ◌==◌, arith, if_cases,
}
use share_serial.Report.{CaseStatus, running, passed, failed, skipped, TestCase}
use share_serial.Report.Pages.{escape, escape_char, status_text}
use share_serial.Report.Pages.Markdown.{case_row}
use share_serial.Report.Pages.Tables.{
  decode_from, decode_entity, split_bar, without_last, cell_text, read_row, Row,
}

decode-escape_char :
    (c : ℕ) (s : Text)
    → (c == 0) ≡ false
    → decode_from none (escape_char c ++ s) ≡ c ∷ decode_from none s
unfolding decode_from decode_entity escape_char text_eq
decode-escape_char c s h =
    let P = λ (x : Text). decode_from none (x ++ s) ≡ c ∷ decode_from none s in
    let is : (d : ℕ) → (c == d) ≡ true → d ∷ decode_from none s ≡ c ∷ decode_from none s =
      λ d e. ap (λ (x : ℕ). x ∷ decode_from none s) (ground arith) in
    if_cases P (c == b'&') _ _ (is b'&') (λ amp. if_cases P (c == b'<') _ _ (is b'<') (λ _.
      if_cases P (c == b'>') _ _ (is b'>') (λ _. if_cases P (c == 34) _ _ (is 34) (λ _.
        if_cases P (c == 39) _ _ (is 39) (λ _.
          if_cases P (c == b'+') _ _ (is b'+')
            (λ _. if_cases P (c == 0) _ _ (λ e. absurd (cc)) (λ _. rw amp refl)))))))

-- Decoding undoes the escaping of a text with no NUL.
decode-escape : (s : Text) → member 0 s ≡ false → decode_from none (escape s) ≡ s
unfolding escape decode_from
decode-escape [] h = refl
decode-escape (c ∷ s) h =
    decode-escape_char c (escape s) (ground arith) ∙ ap (◌∷◌ c) (decode-escape s (ground arith))

split_bar_lem : (s t : Text) → member b'|' s ≡ false → split_bar (s ++ (b'|' ∷ t)) ≡ (s, t)
unfolding split_bar
split_bar_lem [] t h = refl
split_bar_lem (c ∷ s) t h = ground (arith, split_bar_lem s t)

without_last_lem : (s : Text) (c : ℕ) → without_last (s ++ c ∷ []) ≡ s
unfolding without_last
without_last_lem [] c = refl
without_last_lem (d ∷ []) c = refl
without_last_lem (d ∷ e ∷ s) c = ap (◌∷◌ d) (without_last_lem (e ∷ s) c)

member-escape_char :
    (c d : ℕ)
    → member c (codes "&amplgt#3496;" ++ (0xfffd ∷ [])) ≡ false
    → (d == c) ≡ false
    → member c (escape_char d) ≡ false
unfolding escape_char
member-escape_char c d k h = ground arith

pub member-escape :
    (c : ℕ) (s : Text)
    → member c (codes "&amplgt#3496;" ++ (0xfffd ∷ [])) ≡ false
    → member c s ≡ false
    → member c (escape s) ≡ false
unfolding escape
member-escape c [] k h = refl
member-escape c (d ∷ s) k h =
    member-append c (escape_char d) (escape s)
    ∙ rw (member-escape_char c d k (ground arith)) (member-escape c s k (ground arith))

split_cell :
    (s t : Text)
    → member b'|' s ≡ false
    → split_bar (b' ' ∷ (s ++ (b' ' ∷ b'|' ∷ t))) ≡ (b' ' ∷ (s ++ b' ' ∷ []), t)
split_cell s t h =
    ap (λ (u : Text). split_bar (b' ' ∷ u)) (sym (append_assoc s (b' ' ∷ []) (b'|' ∷ t)))
    ∙ split_bar_lem (b' ' ∷ (s ++ b' ' ∷ [])) t (member-append b'|' s (b' ' ∷ []) ∙ rw h refl)

split_bar_first : (t : Text) → split_bar (codes "| " ++ t) ≡ ([], b' ' ∷ t)
unfolding split_bar
split_bar_first t = refl

cell_text_lem : (s : Text) → cell_text (b' ' ∷ (s ++ b' ' ∷ [])) ≡ decode_from none s
unfolding cell_text
cell_text_lem s = ap (decode_from none) (without_last_lem s b' ')

read_row_lem :
    (a b c : Text)
    → member b'|' a ≡ false
    → member b'|' b ≡ false
    → member b'|' c ≡ false
    → read_row (codes "| " ++ (a ++ (codes " | " ++ (b ++ (codes " | " ++ (c ++ codes " |"))))))
      ≡ (decode_from none a, decode_from none b, decode_from none c)
unfolding read_row
read_row_lem a b c ha hb hc =
    let e1 = split_cell a (b' ' ∷ (b ++ (b' ' ∷ b'|' ∷ b' ' ∷ (c ++ (b' ' ∷ b'|' ∷ []))))) ha in
    let e2 = split_cell b (b' ' ∷ (c ++ (b' ' ∷ b'|' ∷ []))) hb in
    let e3 = split_cell c [] hc in
    let e0 = split_bar_first (a ++ (codes " | " ++ (b ++ (codes " | " ++ (c ++ codes " |"))))) in
    simp (e0, e1, e2, e3, cell_text_lem)

-- A text that a row can hold: no NUL, no line feed and no bar.
abbrev pub Clean : Text → Type 0
Clean s = (member 0 s ≡ false) × (member 10 s ≡ false) × (member b'|' s ≡ false)

pub status_text-Clean : (st : CaseStatus) → Clean (status_text st)
unfolding status_text
status_text-Clean running = (refl, refl, refl)
status_text-Clean passed = (refl, refl, refl)
status_text-Clean failed = (refl, refl, refl)
status_text-Clean skipped = (refl, refl, refl)

abbrev pub row_of : TestCase → Row
row_of c = (c.name, status_text c.status, c.duration)

pub read_row-case_row :
    (c : TestCase) → Clean c.name → Clean c.duration → read_row (case_row c) ≡ row_of c
unfolding case_row
read_row-case_row c n d =
    let st = status_text-Clean c.status in
    read_row_lem (escape c.name) (escape (status_text c.status)) (escape c.duration)
      (member-escape b'|' c.name refl n.2) (member-escape b'|' (status_text c.status) refl st.2)
      (member-escape b'|' c.duration refl d.2)
    ∙ rw
        (
          decode-escape c.name n.0,
          decode-escape (status_text c.status) st.0,
          decode-escape c.duration d.0,
        )
        refl
