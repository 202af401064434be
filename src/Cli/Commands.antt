-- ===== src/Cli/Commands.antt =====
-- internal/cli/cli.go: `Execute`, and cmd/cli/main.go: what it asks the server before.
-- The proofs are in the module below this one.
pub mod Send
use share_serial.Base.{
  ℕ, ◌+◌, ◌≤◌, ◌≡◌, refl, Option, none, some, List, [], ◌∷◌, ◌++◌, map, Text, codes, text_eq,
  is_empty, if◌then◌else◌, arith,
}
use share_serial.Cli.{
  log_options, no_options, filtered, join_lines, send_command, handle_send, parse_log_data,
}
use share_serial.Cli.Entries.{Entry, entry_of}

-- What `Execute` gives: a text, or an error for no or an unknown command, or for `send` without one.
pub data Executed : Type 0 where
  shown : Text → Executed
  no_command : Executed
  unknown_command : Text → Executed
  help_shown : Executed

-- `Json` is the JSON library: `json.Marshal` of the entries and `json.MarshalIndent` of a status, which
-- is of the type `S`.
pub record Json (S : Type 0) : Type 0 where
  pub marshal : List Entry → Text
  pub marshal_status : S → Text

pub record Cli (S : Type 0) : Type 0 where
  pub log_data : List Text
  pub send_resp : Text
  pub status : S

module _ {S : Type 0} (json : Json S) where
  entries_text : List Text → Text
  unfolding entry_of
  entries_text [] = codes "[]"
  entries_text (line ∷ lines) = json.marshal (map entry_of (line ∷ lines))

  unfoldable pub handle_log : List Text → List Text → Text
  unfolding log_options no_options filtered join_lines entries_text
  handle_log log_data args =
      let options = log_options no_options args in
      let lines = filtered options.keyword log_data in
      if text_eq options.format (codes "json") then entries_text lines else join_lines lines

  pub sent_result : Option Text → Executed
  sent_result none = no_command
  sent_result (some response) = shown response

  unfoldable pub execute : Cli S → List Text → Executed
  unfolding handle_log handle_send sent_result
  execute c [] = no_command
  execute c (command ∷ args) =
      if text_eq command (codes "version")
      then shown (codes "shareserial v1.0.0")
      else if text_eq command (codes "log")
      then shown (handle_log c.log_data args)
      else if text_eq command (codes "send")
      then sent_result (handle_send c.send_resp args)
      else if text_eq command (codes "status")
      then shown (json.marshal_status c.status)
      else if text_eq command (codes "help")
      then help_shown
      else unknown_command command

-- The loop of `main` over the arguments, which stops at the first `--command` with a value.
pub first_command : List Text → Text
first_command [] = []
first_command (a ∷ []) = []
first_command (a ∷ b ∷ args) =
    let next = first_command (b ∷ args) in if text_eq a (codes "--command") then b else next

-- What `main` writes to the server for the arguments, if anything.
pub request : List Text → Option Text
unfolding first_command
request [] = none
request (command ∷ args) =
    if text_eq command (codes "log")
    then some (codes "GET_LOG\n")
    else if text_eq command (codes "status")
    then some (codes "GET_STATUS\n")
    else if text_eq command (codes "send")
    then (let sent = first_command (command ∷ args) in
        if is_empty sent then none else some (codes "SEND:" ++ (sent ++ codes "\n")))
    else none

-- `main`: with no arguments it shows the help; `response` is what the server answers to a request, and
-- `parse_status` makes a status of it. The connection is taken to succeed.
module _ {S : Type 0} (json : Json S) (parse_status : Text → S) (no_status : S) where
  pub answered : List Text → Text → Cli S
  unfolding request
  answered [] response = record { log_data = []; send_resp = []; status = no_status }
  answered (command ∷ args) response =
      let empty : Cli S = record { log_data = []; send_resp = []; status = no_status } in
      if text_eq command (codes "log")
      then record empty { log_data = parse_log_data response }
      else if text_eq command (codes "status")
      then record empty { status = parse_status response }
      else if text_eq command (codes "send")
      then elim (request (command ∷ args)) [
        | none ↦ empty
        | some sent ↦ record empty { send_resp = response }
      ]
      else empty

  pub run_main : List Text → Text → Executed
  unfolding answered execute
  run_main [] response = execute json (answered (codes "help" ∷ []) response) (codes "help" ∷ [])
  run_main (command ∷ args) response =
      execute json (answered (command ∷ args) response) (command ∷ args)
