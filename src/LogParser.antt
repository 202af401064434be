-- ===== src/LogParser.antt =====
-- pkg/logparser/logparser.go: the parser of log lines, its filters and its statistics. Its regular
-- expressions and the proofs are in the modules below this one.
pub mod Regexes
pub mod Counts
pub mod Filters
pub mod Patterns
use share_serial.Base.{
  is_empty, ℕ, ◌+◌, ◌*◌, ◌-◌, Bool, true, false, not, ◌&&◌, ◌||◌, Option, none, some, List, [], ◌∷◌,
  ◌++◌, Text, codes, text_eq, has_prefix, after_prefix, contains, cut, ◌==◌, leb, ltb, length, take,
  Dict, insert, lookup, ℤ, pos, negsuc, if◌then◌else◌,
}
use share_serial.LogParser.Regexes.{find_time, find_level}

pub record LogEntry : Type 0 where
  pub timestamp : Text
  pub level : Text
  pub message : Text
  pub raw : Text

pub level_of : Option Text → Text
level_of none = codes "INFO"
level_of (some l) = if text_eq l (codes "WARNING") then codes "WARN" else l

timestamp_of : Option Text → Text
timestamp_of none = []
timestamp_of (some t) = t

message_of : Text → Option (Text × Text) → Text
message_of line none = line
message_of line (some (before, behind)) = behind

-- The flag tells whether the line has the log's format.
pub parse_line : Text → LogEntry × Bool
unfolding find_time find_level level_of timestamp_of message_of cut
parse_line line =
    let timestamp = timestamp_of (find_time line) in
    (
      record {
        timestamp = timestamp;
        level = level_of (find_level line);
        message = message_of line (cut line (codes ": "));
        raw = line;
      },
      not (is_empty timestamp),
    )

pub parse_lines : List Text → List LogEntry
unfolding parse_line
parse_lines [] = []
parse_lines (line ∷ lines) = (parse_line line).0 ∷ parse_lines lines

pub containing : List Text → Text → List Text
unfolding contains
containing [] keyword = []
containing (line ∷ lines) keyword =
    let rest = containing lines keyword in if contains line keyword then line ∷ rest else rest

pub filter : List Text → Text → List Text
unfolding containing
filter lines keyword = if is_empty keyword then lines else containing lines keyword

-- Hours, minutes and seconds of a `time.Time`.
pub record ClockTime : Type 0 where
  pub hour : ℕ
  pub minute : ℕ
  pub second : ℕ

unfoldable pub seconds : ClockTime → ℕ
seconds t = t.hour * 3600 + t.minute * 60 + t.second

-- `time.Parse("15:04:05", t)` on a text of the form that `clock` finds.
parse_clock : Text → Option ClockTime
parse_clock (a ∷ b ∷ p ∷ c ∷ d ∷ q ∷ e ∷ f ∷ []) =
    let hour = (a - b'0') * 10 + (b - b'0') in
    let minute = (c - b'0') * 10 + (d - b'0') in
    let second = (e - b'0') * 10 + (f - b'0') in
    if ltb hour 24 && ltb minute 60 && ltb second 60
    then some (record { hour = hour; minute = minute; second = second })
    else none
parse_clock _ = none

-- The time of a line, if its timestamp is one: what stands before the first dot.
pub line_time : Text → Option ClockTime
unfolding find_time timestamp_of parse_clock cut
line_time line =
    let ts = timestamp_of (find_time line) in
    elim (cut ts (b'.' ∷ [])) [ none ↦ parse_clock ts | some (before, behind) ↦ parse_clock before ]

pub in_range : ℕ → ℕ → ℕ → Bool
in_range start end n = if ltb end start then leb start n || leb n end else leb start n && leb n end

pub filter_time_range : List Text → ClockTime → ClockTime → List Text
unfolding line_time in_range seconds
filter_time_range [] start end = []
filter_time_range (line ∷ lines) start end =
    let rest = filter_time_range lines start end in
    elim (line_time line) [
      | none ↦ rest
      | some t ↦ if in_range (seconds start) (seconds end) (seconds t) then line ∷ rest else rest
    ]

pub limit_lines : List Text → ℤ → List Text
limit_lines lines (negsuc n) = lines
limit_lines lines (pos n) = if n == 0 || leb (length lines) n then lines else take n lines

pub raw_lines : List LogEntry → List Text
raw_lines [] = []
raw_lines (e ∷ es) = e.raw ∷ raw_lines es

pub filter_by_level : List LogEntry → Text → List LogEntry
filter_by_level [] level = []
filter_by_level (e ∷ es) level =
    let rest = filter_by_level es level in if text_eq e.level level then e ∷ rest else rest

-- `levelSet[l]`, for the set of `levels`.
level_set : List Text → Text → Bool
level_set [] l = false
level_set (k ∷ ks) l = text_eq k l || level_set ks l

unfoldable filter_by_levels : List LogEntry → List Text → List LogEntry
unfolding level_set
filter_by_levels [] levels = []
filter_by_levels (e ∷ es) levels =
    let rest = filter_by_levels es levels in if level_set levels e.level then e ∷ rest else rest

-- A missing key counts as 0.
pub count : Text → Dict ℕ → ℕ
count l stats = elim (lookup l stats) [ none ↦ 0 | some n ↦ n ]

pub count_levels : Dict ℕ → List LogEntry → Dict ℕ
unfolding count
count_levels stats [] = stats
count_levels stats (e ∷ es) = count_levels (insert e.level (count e.level stats + 1) stats) es

pub stats : List LogEntry → Dict ℕ
unfolding count_levels
stats entries = count_levels (insert (codes "total") (length entries) []) entries
