-- ===== src/Report/Pages/Tables.antt =====
-- cmd/report-generator/main.go: the tables of the Markdown report are read back.
pub mod Rows
pub mod Lines
pub mod ReadBack
pub mod Cells
pub mod Logs
use share_serial.Base.{
  ℕ, ◌≡◌, refl, ap, ◌∙◌, true, false, Option, none, some, List, [], ◌∷◌, ◌++◌, Text, codes, text_eq,
  is_empty, member, member-append, ◌==◌, if◌then◌else◌, arith, if_cases, sym, append_assoc,
}
use share_serial.Report.Pages.{escape, escape_char, status_text, CaseStatus}

-- What a reader makes of a character reference.
decode_entity : Text → Text
decode_entity e =
    if text_eq e (codes "amp")
    then codes "&"
    else if text_eq e (codes "lt")
    then codes "<"
    else if text_eq e (codes "gt")
    then codes ">"
    else if text_eq e (codes "#34")
    then 34 ∷ []
    else if text_eq e (codes "#39")
    then 39 ∷ []
    else if text_eq e (codes "#43")
    then codes "+"
    else b'&' ∷ e

-- `some e` while the reference `e` is being read.
decode_from : Option Text → Text → Text
unfolding decode_entity
decode_from none [] = []
decode_from none (c ∷ s) =
    let begins = decode_from (some []) s in
    let stays = c ∷ decode_from none s in if c == b'&' then begins else stays
decode_from (some e) [] = b'&' ∷ e
decode_from (some e) (c ∷ s) =
    let ends = decode_entity e ++ decode_from none s in
    let longer = decode_from (some (e ++ c ∷ [])) s in if c == b';' then ends else longer

-- The text before a bar, and the text behind it.
split_bar : Text → Text × Text
split_bar [] = ([], [])
split_bar (c ∷ s) = let (a, b) = split_bar s in if c == b'|' then ([], s) else (c ∷ a, b)

-- A cell with no blank at its ends.
without_last : Text → Text
without_last [] = []
without_last (c ∷ []) = []
without_last (c ∷ d ∷ s) = c ∷ without_last (d ∷ s)

cell_text : Text → Text
unfolding without_last decode_from
cell_text [] = []
cell_text (c ∷ s) = decode_from none (without_last s)

-- A row `| a | b | c |`.
abbrev pub Row : Type 0
Row = Text × Text × Text

pub read_row : Text → Row
read_row line =
    let (_, cells) = split_bar line in
    let (a, rest) = split_bar cells in
    let (b, rest') = split_bar rest in
    let (c, _) = split_bar rest' in (cell_text a, cell_text b, cell_text c)

pub data Place : Type 0 where
  outside heading inside : Place

abbrev header : Text
header = codes "| 测试名称 | 状态 | 耗时 |"

-- The rows of all tables with this header, up to the section on build artefacts.
pub read_rows : Place → List Text → List Row
unfolding read_row
read_rows place [] = []
read_rows outside (line ∷ lines) =
    let starts = read_rows heading lines in
    let on = read_rows outside lines in
    if text_eq line (codes "## 构建产物") then [] else if text_eq line header then starts else on
read_rows heading (line ∷ lines) = read_rows inside lines
read_rows inside (line ∷ lines) =
    let ended = read_rows outside lines in
    let more = read_row line ∷ read_rows inside lines in if is_empty line then ended else more
