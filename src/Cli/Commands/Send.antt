-- ===== src/Cli/Commands/Send.antt =====
-- internal/cli/cli.go and cmd/cli/main.go: what `send` sends and what it shows.
use share_serial.Base.{
  ℕ, ◌+◌, ◌≤◌, ◌≡◌, refl, Option, none, some, List, [], ◌∷◌, ◌++◌, Text, codes, text_eq, is_empty,
  if◌then◌else◌, arith, ap, ◌∙◌,
}
use share_serial.Cli.{send_command, handle_send}
use share_serial.Cli.Commands.{
  Json, Executed, shown, no_command, first_command, request, run_main, answered, execute,
  sent_result,
}

-- How many `--command` with a value `handleSend` takes.
unfoldable pub commands : List Text → ℕ
commands [] = 0
commands (a ∷ []) = 0
commands (a ∷ b ∷ args) =
    let taken = commands args in
    let next = commands (b ∷ args) in if text_eq a (codes "--command") then 1 + taken else next

no_more :
    (command : Text) (args : List Text) → commands args ≡ 0 → send_command command args ≡ command
unfolding commands send_command
no_more command [] h = refl
no_more command (a ∷ []) h = refl
no_more command (a ∷ b ∷ args) h = ground (arith, no_more command (b ∷ args))

first_is_last : (args : List Text) → commands args ≤ 1 → first_command args ≡ send_command [] args
unfolding commands send_command first_command
first_is_last [] h = refl
first_is_last (a ∷ []) h = refl
first_is_last (a ∷ b ∷ args) h = ground (arith, no_more b args, first_is_last (b ∷ args))

abbrev request_for : Text → Option Text
request_for command =
    if is_empty command then none else some (codes "SEND:" ++ (command ++ codes "\n"))

first_send : (args : List Text) → first_command (codes "send" ∷ args) ≡ first_command args
unfolding first_command text_eq
first_send [] = refl
first_send (a ∷ args) = refl

send_request : (args : List Text) → request (codes "send" ∷ args) ≡ request_for (first_command args)
unfolding request first_command text_eq
send_request [] = refl
send_request (a ∷ args) = refl

handle_send_lem :
    (response : Text) (args : List Text)
    → handle_send response args ≡ (if is_empty (send_command [] args) then none else some response)
unfolding handle_send
handle_send_lem response args = ground arith

-- What `send` shows for the answer, the command that `handleSend` takes, and the one that was sent.
abbrev result_for : Text → Text → Text → Executed
result_for response taken sent =
    if is_empty taken then no_command else if is_empty sent then shown [] else shown response

results :
    (response command : Text)
    → result_for response command command
      ≡ (if is_empty command then no_command else shown response)
results response [] = refl
results response (c ∷ command) = refl

run_send :
    {S : Type 0} (json : Json S) (parse_status : Text → S) (no_status : S) (args : List Text)
    (response : Text)
    → run_main json parse_status no_status (codes "send" ∷ args) response
      ≡ result_for response (send_command [] args) (first_command args)
unfolding run_main answered execute text_eq sent_result
run_send json parse_status no_status args response =
    ground (arith, handle_send_lem response args, handle_send_lem [] args, first_send args)

-- With one `--command` at most, `send` asks the server for what `handleSend` accepts: with a command
-- that is not empty it sends this command and shows the server's answer, and else it sends nothing and
-- ends with an error.
pub send_agrees :
    {S : Type 0} (json : Json S) (parse_status : Text → S) (no_status : S) (args : List Text)
    (response : Text)
    → commands args ≤ 1
    → let command = send_command [] args in
      (request (codes "send" ∷ args)
        ≡ (if is_empty command then none else some (codes "SEND:" ++ (command ++ codes "\n"))))
      × (run_main json parse_status no_status (codes "send" ∷ args) response
          ≡ (if is_empty command then no_command else shown response))
send_agrees json parse_status no_status args response h =
    let last = first_is_last args h in
    let asked = send_request args ∙ ap request_for last in
    (
      asked,
      run_send json parse_status no_status args response
          ∙ ap (result_for response (send_command [] args)) last
          ∙ results response (send_command [] args),
    )

-- With two, the first is sent and the last decides: the first is carried out by the server while `send`
-- ends with an error, if the last is empty.
sent_and_refused :
    {S : Type 0} (json : Json S) (parse_status : Text → S) (no_status : S) (response : Text) (b : ℕ)
    (bs : Text)
    → let args = codes "send" ∷ codes "--command" ∷ (b ∷ bs) ∷ codes "--command" ∷ [] ∷ [] in
      (request args ≡ some (codes "SEND:" ++ ((b ∷ bs) ++ codes "\n")))
      × (run_main json parse_status no_status args response ≡ no_command)
unfolding request first_command text_eq run_main execute handle_send send_command sent_result
sent_and_refused json parse_status no_status response b bs = (refl, refl)
