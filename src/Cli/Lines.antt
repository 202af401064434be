-- ===== src/Cli/Lines.antt =====
-- internal/cli/cli.go and cmd/cli/main.go: what `log` prints in the text format can be read again.
use share_serial.Base.{
  ◌≡◌, ◌≢◌, refl, sym, ap, ◌∙◌, false, List, [], ◌∷◌, ◌++◌, append-nil, append_assoc, Text,
  contains, ◌==◌, inl, inr, Bool-cases, text_eq, codes,
}
use share_serial.Cli.Commands.{Cli, Json, execute, handle_log, shown}
use share_serial.Cli.{
  log_options, no_options, filtered, join_lines, split_from, split_lines, nonempty, parse_log_data,
}

-- No line feed in a text.
abbrev pub OneLine : Text → Type 0
OneLine [] = Unit {0}
OneLine (c ∷ s) = ((c == 10) ≡ false) × OneLine s

-- Each line has a character and no line feed.
abbrev pub AllLines : List Text → Type 0
AllLines [] = Unit {0}
AllLines (line ∷ lines) = ((line ≢ []) × OneLine line) × AllLines lines

split_from_line :
    (line begun s : Text)
    → OneLine line
    → split_from begun (line ++ s) ≡ split_from (begun ++ line) s
unfolding split_from
split_from_line [] begun s h = ap (λ (t : Text). split_from t s) (sym (append-nil begun))
split_from_line (c ∷ line) begun s h = rw (h.0) (
    split_from_line line (begun ++ c ∷ []) s h.1
    ∙ ap (λ (t : Text). split_from t s) (append_assoc begun (c ∷ []) line))

filtered-AllLines : (k : Text) (lines : List Text) → AllLines lines → AllLines (filtered k lines)
unfolding filtered
filtered-AllLines [] lines h = h
filtered-AllLines (c ∷ k) [] h = tt
filtered-AllLines (c ∷ k) (line ∷ lines) h = elim (Bool-cases (contains line (c ∷ k))) [
  | inl e ↦ rw e (h.0, filtered-AllLines (c ∷ k) lines h.1)
  | inr e ↦ rw e (filtered-AllLines (c ∷ k) lines h.1)
]

split_from-end : (line : Text) → line ≢ [] → nonempty (split_from line []) ≡ line ∷ []
unfolding split_from nonempty
split_from-end [] h = absurd (h refl)
split_from-end (c ∷ line) h = refl

split_from-feed :
    (line s : Text)
    → line ≢ []
    → nonempty (split_from line (10 ∷ s)) ≡ line ∷ nonempty (split_from [] s)
unfolding split_from nonempty
split_from-feed [] s h = absurd (h refl)
split_from-feed (c ∷ line) s h = refl

parse_log_data-join_lines :
    (lines : List Text) → AllLines lines → parse_log_data (join_lines lines) ≡ lines
unfolding parse_log_data join_lines split_lines split_from nonempty
parse_log_data-join_lines [] h = refl
parse_log_data-join_lines (line ∷ []) h =
    ap (λ (t : Text). nonempty (split_from [] t)) (sym (append-nil line))
    ∙ ap nonempty (split_from_line line [] [] h.0.1)
    ∙ split_from-end line h.0.0
parse_log_data-join_lines (line ∷ next ∷ lines) h =
    let rest = join_lines (next ∷ lines) in
    ap nonempty (split_from_line line [] (10 ∷ rest) h.0.1)
    ∙ split_from-feed line rest h.0.0
    ∙ ap (◌∷◌ line) (parse_log_data-join_lines (next ∷ lines) h.1)

handle_log-text :
    {S : Type 0} (json : Json S) (lines args : List Text)
    → text_eq ((log_options no_options args).format) (codes "json") ≡ false
    → handle_log json lines args
      ≡ join_lines (filtered ((log_options no_options args).keyword) lines)
unfolding handle_log
handle_log-text json lines args h = rw h refl

execute-log :
    {S : Type 0} (json : Json S) (c : Cli S) (args : List Text)
    → execute json c (codes "log" ∷ args) ≡ shown (handle_log json c.log_data args)
unfolding execute text_eq
execute-log json c args = refl

-- If no line of the log is empty or has a line feed, and the format that the arguments of `log` give
-- is not `json`, then `log` prints a text, and the client's own `parseLogData` reads it again as the
-- lines that the last filter among the arguments keeps.
pub parse_log_data-execute :
    {S : Type 0} (json : Json S) (c : Cli S) (args : List Text)
    → AllLines c.log_data
    → text_eq ((log_options no_options args).format) (codes "json") ≡ false
    → (t : Text) × (execute json c (codes "log" ∷ args) ≡ shown t)
      × (parse_log_data t ≡ filtered ((log_options no_options args).keyword) c.log_data)
parse_log_data-execute json c args h f =
    let k = (log_options no_options args).keyword in
    (
      handle_log json c.log_data args,
      execute-log json c args,
      ap parse_log_data (handle_log-text json c.log_data args f)
          ∙ parse_log_data-join_lines (filtered k c.log_data) (filtered-AllLines k c.log_data h),
    )
