-- ===== src/Examples/Logs.antt =====
-- pkg/logparser/logparser.go and `MockServer` at concrete inputs.
use share_serial.Base.{
  has_prefix, ℕ, ◌+◌, ◌≡◌, refl, some, List, [], ◌∷◌, ◌++◌, Text, codes, length, last, arith, none,
}
use share_serial.Arbiter
use share_serial.Arbiter.{acquires}
use share_serial.Base.{contains, text_eq}
use share_serial.Cli.{log_options, no_options, filtered, parse_log_data}
use share_serial.Cli.Commands.{Cli, Json, execute, shown}
use share_serial.Cli.Lines.{parse_log_data-execute}
use share_serial.LogParser.Regexes.{find_time, find_level}
use share_serial.LogParser.{
  parse_lines, ClockTime, seconds, filter_time_range, filter_by_level, count, stats,
}
use share_serial.LogParser.Counts.{stats-parse_lines}
use share_serial.LogParser.Filters.{timed, filter_time_range_split}
use share_serial.MockServer.{MockServer, new_mock_server}
use share_serial.MockServer.{appending}
use share_serial.MockServer.Recorded.Owners.{Owned, run-Owned}
use share_serial.MockServer.Recorded.{
  Running, Event, accepts, advances, broadcasts, lock, given, run, run-newest,
}

abbrev log : List Text
log =
    codes "[23:30:00.125] WARNING: late"
    ∷ codes "[12:00:01] INFO: noon"
    ∷ codes "no time: here"
    ∷ []

-- A time with its fraction.
time_found : find_time (codes "x [23:30:00.125] WARNING: late") ≡ some (codes "23:30:00.125")
unfolding find_time has_prefix
time_found = refl

-- The longer of two names that begin alike.
level_found : find_level (codes "[23:30:00.125] WARNING: late") ≡ some (codes "WARNING")
unfolding find_level
level_found = refl

stats-parse_lines_example :
    let counted = stats (parse_lines log) in
    (count (codes "total") counted ≡ 3)
    × (count (codes "WARN") counted ≡ length (filter_by_level (parse_lines log) (codes "WARN")))
stats-parse_lines_example = stats-parse_lines log (codes "WARN") (λ e. cc)

-- A JSON library that writes nothing.
abbrev no_json : Json Text
no_json = record { marshal = λ entries. []; marshal_status = λ s. s }

abbrev cli : Cli Text
cli = record { log_data = codes "a:x" ∷ codes "b:y" ∷ []; send_resp = []; status = [] }

parse_log_data-execute_example :
    (t : Text) × (execute no_json cli (codes "log" ∷ codes "--filter" ∷ codes "b" ∷ []) ≡ shown t)
    × (parse_log_data t ≡ codes "b:y" ∷ [])
unfolding log_options filtered no_options contains text_eq has_prefix
parse_log_data-execute_example =
    parse_log_data-execute no_json cli (codes "--filter" ∷ codes "b" ∷ [])
      (((λ e. cc), (refl, (refl, (refl, tt)))), (((λ e. cc), (refl, (refl, (refl, tt)))), tt)) refl

abbrev clock_at : ℕ → ℕ → ℕ → ClockTime
clock_at h m s = record { hour = h; minute = m; second = s }

filter_time_range_split_example :
    length (filter_time_range log (clock_at 23 0 0) (clock_at 1 0 0))
      + length (filter_time_range log (clock_at 1 0 1) (clock_at 22 59 59))
    ≡ length (timed log)
unfolding seconds
filter_time_range_split_example =
    filter_time_range_split log (clock_at 23 0 0) (clock_at 1 0 0) (clock_at 1 0 1)
      (clock_at 22 59 59) refl refl (omega arith)

abbrev alice : Text
alice = 97 ∷ []

abbrev small_server : MockServer
small_server = record new_mock_server { max_buffer_size = 3 }

abbrev fresh : Running
fresh = record { server = small_server; handlers = λ k. none }

-- A chunk that comes with no lock, and one whose goroutine is overtaken by a broadcast.
abbrev mock_events : List Event
mock_events =
    accepts 0 alice 1
    ∷ advances 0 (some (codes "lost"))
    ∷ advances 0 none
    ∷ lock (acquires alice)
    ∷ advances 0 (some (codes "abc"))
    ∷ advances 0 none
    ∷ advances 0 none
    ∷ broadcasts (codes "d")
    ∷ []

run-newest_example :
    (run fresh (mock_events ++ (advances 0 none ∷ []))).server.recorded
    ≡ last 3 (small_server.recorded ++ given fresh (mock_events ++ (advances 0 none ∷ [])))
unfolding new_mock_server
run-newest_example = run-newest fresh (mock_events ++ (advances 0 none ∷ [])) (omega arith)

run-Owned_example : Owned fresh alice mock_events
unfolding new_mock_server run Arbiter.step text_eq
run-Owned_example =
    run-Owned fresh mock_events 0 alice (codes "abc") (λ g there. cc)
      (record { id = alice; conn = 1; place = appending (codes "abc") }, refl, refl, refl)
