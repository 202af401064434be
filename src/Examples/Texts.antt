-- ===== src/Examples/Texts.antt =====
-- The command line and saved configurations at concrete inputs.
use share_serial.Base.{
  ◌≡◌, refl, true, Option, none, some, List, [], ◌∷◌, ◌++◌, Text, codes, text_eq, is_empty,
  is_space, if◌then◌else◌, arith,
}
use share_serial.Cli.{send_command}
use share_serial.Cli.Entries.{entry_of, trim_blanks, trim_blanks_left, trim_blanks_right}
use share_serial.Cli.Entries.Parts.{log_line, entry_of-log_line}
use share_serial.Cli.Commands.{Json, shown, no_command, request, run_main}
use share_serial.Cli.Commands.Send.{commands, send_agrees}
use share_serial.Config.{ServerConfig, apply_defaults, default_server_config}
use share_serial.Config.Loader.{config, load_server, load_server_from_file}
use share_serial.Config.Saved.{save_server, load-save}

entry_of-log_line_example :
    let line = log_line (codes "17:30:00") (codes "INFO") (codes "a: b") in
    entry_of line ≡ record {
      timestamp = codes "17:30:00";
      level = codes "INFO";
      message = codes "a: b";
      raw = line;
    }
unfolding trim_blanks trim_blanks_left trim_blanks_right is_space
entry_of-log_line_example =
    entry_of-log_line (codes "17:30:00") (codes "INFO") (codes "a: b") (ground arith) (ground arith)
      refl (ground arith) (ground arith)

-- A library that writes every value as one text, and a status that is that text.
abbrev json : Json Text
json = record { marshal = λ entries. codes "[...]"; marshal_status = λ s. s }

abbrev reboot : List Text
reboot = codes "--timeout" ∷ codes "5" ∷ codes "--command" ∷ codes "reboot" ∷ []

send_agrees_example :
    let command = send_command [] reboot in
    (request (codes "send" ∷ reboot)
      ≡ (if is_empty command then none else some (codes "SEND:" ++ (command ++ codes "\n"))))
    × (run_main json (λ t. t) [] (codes "send" ∷ reboot) (codes "ok")
        ≡ (if is_empty command then no_command else shown (codes "ok")))
unfolding commands text_eq
send_agrees_example = send_agrees json (λ t. t) [] reboot (codes "ok") (omega arith)

-- A library that knows one configuration.
abbrev read_yaml : Text → Option ServerConfig
read_yaml [] = none
read_yaml (c ∷ s) = some default_server_config

load-save_example :
    let saved =
      save_server (λ cfg. some (codes "yaml")) true (λ p. none) default_server_config (codes "f") in
    (saved.1 ≡ true)
    × (load_server_from_file read_yaml saved.0 (codes "f")
        ≡ config (apply_defaults default_server_config))
    × (load_server read_yaml saved.0 (codes "f") ≡ config (apply_defaults default_server_config))
load-save_example =
    load-save read_yaml (λ cfg. some (codes "yaml")) (λ p. none) default_server_config
      (codes "yaml") b'f' [] refl refl
