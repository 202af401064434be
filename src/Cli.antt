-- ===== src/Cli.antt =====
-- internal/cli/cli.go: the commands of the command line, and cmd/cli/main.go: the lines of a log. The
-- proofs are in the module below this one.
pub mod Lines
pub mod Entries
pub mod Commands
use share_serial.Base.{
  ℕ, Bool, true, false, not, ◌&&◌, Option, none, some, List, [], ◌∷◌, ◌++◌, Text, codes, text_eq,
  has_prefix, contains, cut, ◌==◌, if◌then◌else◌,
}

-- The options of `log`: the filter and the format.
pub record LogOptions : Type 0 where
  pub keyword : Text
  pub format : Text

-- The loop over the arguments. A value of `--filter` is itself tested for being `--format`.
unfoldable pub log_options : LogOptions → List Text → LogOptions
log_options o [] = o
log_options o (a ∷ []) = o
log_options o (a ∷ b ∷ []) =
    if text_eq a (codes "--filter")
    then record o { keyword = b }
    else if text_eq a (codes "--format")
    then record o { format = b }
    else o
log_options o (a ∷ b ∷ c ∷ args) =
    let keyword_given = record o { keyword = b } in
    let skipped = log_options keyword_given (c ∷ args) in
    let both = log_options (record keyword_given { format = c }) args in
    let format_given = log_options (record o { format = b }) (c ∷ args) in
    let next = log_options o (b ∷ c ∷ args) in
    if text_eq a (codes "--filter")
    then (if text_eq b (codes "--format") then both else skipped)
    else if text_eq a (codes "--format")
    then format_given
    else next

unfoldable pub no_options : LogOptions
no_options = record { keyword = []; format = codes "text" }

unfoldable pub filtered : Text → List Text → List Text
unfolding contains
filtered [] lines = lines
filtered (c ∷ k) [] = []
filtered (c ∷ k) (line ∷ lines) =
    let rest = filtered (c ∷ k) lines in if contains line (c ∷ k) then line ∷ rest else rest

-- `strings.Join(lines, "\n")`
pub join_lines : List Text → Text
join_lines [] = []
join_lines (line ∷ []) = line
join_lines (line ∷ next ∷ lines) = line ++ (10 ∷ join_lines (next ∷ lines))

-- The loop of `splitLines`, with the line that has begun.
pub split_from : Text → Text → List Text
split_from [] [] = []
split_from (c ∷ line) [] = (c ∷ line) ∷ []
split_from line (c ∷ s) =
    let ended = line ∷ split_from [] s in
    let longer = split_from (line ++ c ∷ []) s in if c == 10 then ended else longer

pub split_lines : Text → List Text
unfolding split_from
split_lines s = split_from [] s

pub nonempty : List Text → List Text
nonempty [] = []
nonempty ([] ∷ lines) = nonempty lines
nonempty ((c ∷ line) ∷ lines) = (c ∷ line) ∷ nonempty lines

pub parse_log_data : Text → List Text
unfolding split_lines nonempty
parse_log_data s = nonempty (split_lines s)

-- The loop of `handleSend`: the last `--command` with a value.
pub send_command : Text → List Text → Text
send_command command [] = command
send_command command (a ∷ []) = command
send_command command (a ∷ b ∷ args) =
    let taken = send_command b args in
    let next = send_command command (b ∷ args) in
    if text_eq a (codes "--command") then taken else next

-- `none` is the error that no command is given.
pub handle_send : Text → List Text → Option Text
unfolding send_command
handle_send response args = elim (send_command [] args) [ [] ↦ none | c ∷ command ↦ some response ]
