-- ===== src/Cli/Entries/Parts.antt =====
-- internal/cli/cli.go: a log line is taken apart into its parts.
use share_serial.Base.{
  after_prefix, ◌&&◌, ℕ, ◌-◌, ◌≡◌, refl, ap, sym, ◌∙◌, false, some, [], ◌∷◌, ◌++◌, Text, codes,
  has_prefix, cut, trim_space, trim_left, trim_right, is_space, take, length, ◌==◌, Lacks,
  index-append, take-length_append, arith, append_assoc,
}
use share_serial.Cli.Entries.{
  trim_blanks, extract_timestamp, level_in, extract_level, extract_message, entry_of,
}

-- A line as the comments of the source give it: `[17:30:00] INFO: message`.
abbrev pub log_line : Text → Text → Text → Text
log_line timestamp level message =
    b'[' ∷ (timestamp ++ (b']' ∷ b' ' ∷ (level ++ (b':' ∷ b' ' ∷ message))))

-- Cutting at a byte that does not stand before it.
cut-byte : (c : ℕ) (s t : Text) → Lacks c s → cut (s ++ (c ∷ t)) (c ∷ []) ≡ some (s, t)
unfolding cut has_prefix after_prefix
cut-byte c [] t h = ground arith
cut-byte c (d ∷ s) t h = ground (arith, cut-byte c s t h.1)

-- A text with no colon before a blank.
abbrev pub NoPair : Text → Type 0
NoPair [] = Unit {0}
NoPair (c ∷ []) = Unit {0}
NoPair (c ∷ d ∷ s) = ((c == b':' && d == b' ') ≡ false) × NoPair (d ∷ s)

cut-pair : (s t : Text) → NoPair s → cut (s ++ (b':' ∷ b' ' ∷ t)) (codes ": ") ≡ some (s, t)
unfolding cut has_prefix after_prefix
cut-pair [] t h = refl
cut-pair (c ∷ []) t h = ground arith
cut-pair (c ∷ d ∷ s) t h = ground (arith, cut-pair (d ∷ s) t h.1)

Lacks-NoPair : (s : Text) → Lacks b':' s → NoPair s
Lacks-NoPair [] h = tt
Lacks-NoPair (c ∷ []) h = tt
Lacks-NoPair (c ∷ d ∷ s) h = (ground (arith, h.0), Lacks-NoPair (d ∷ s) h.1)

-- A bracket between two texts makes no new pair.
NoPair-bracket : (s t : Text) → NoPair s → NoPair t → NoPair (s ++ (b']' ∷ b' ' ∷ t))
NoPair-bracket [] [] h k = (refl, tt)
NoPair-bracket [] (d ∷ t) h k = (refl, (refl, k))
NoPair-bracket (c ∷ []) t h k = (ground arith, NoPair-bracket [] t tt k)
NoPair-bracket (c ∷ d ∷ s) t h k = (h.0, NoPair-bracket (d ∷ s) t h.1 k)

-- A text with no white space, as `unicode.IsSpace` tells it.
abbrev pub IsWord : Text → Type 0
IsWord [] = Unit {0}
IsWord (c ∷ s) = (is_space c ≡ false) × IsWord s

trim_left-word : (s t : Text) → IsWord s → trim_left (s ++ (b':' ∷ t)) ≡ s ++ (b':' ∷ t)
unfolding trim_left is_space
trim_left-word [] t h = refl
trim_left-word (c ∷ s) t h = ground (arith, h.0)

trim_right-word :
    (s t : Text) → IsWord s → trim_right (s ++ (b':' ∷ t)) ≡ s ++ (b':' ∷ trim_right t)
unfolding trim_right
trim_right-word [] t h = ground arith
trim_right-word (c ∷ s) t h = ground (arith, trim_right-word s t h.1)

trim_right-id : (s : Text) → IsWord s → trim_right s ≡ s
unfolding trim_right
trim_right-id [] h = refl
trim_right-id (c ∷ []) h = ground (arith, h.0)
trim_right-id (c ∷ d ∷ s) h = rw (trim_right-id (d ∷ s) h.1, trim_right) refl

trim_left-id : (s : Text) → IsWord s → trim_left s ≡ s
unfolding trim_left is_space
trim_left-id [] h = refl
trim_left-id (c ∷ s) h = ground (arith, h.0)

trim_space-word : (s : Text) → IsWord s → trim_space s ≡ s
unfolding trim_space
trim_space-word s h = ap trim_right (trim_left-id s h) ∙ trim_right-id s h

take_all : (s t : Text) → take (length (b'[' ∷ s) - 1) (s ++ t) ≡ s
take_all s t =
    let same : length (b'[' ∷ s) - 1 ≡ length s = omega arith in
    ap (λ (n : ℕ). take n (s ++ t)) same ∙ take-length_append s t

entry_parts :
    (line timestamp level message : Text)
    → extract_timestamp line ≡ timestamp
    → extract_level line ≡ level
    → extract_message line ≡ message
    → entry_of line ≡ record { timestamp = timestamp; level = level; message = message; raw = line }
unfolding entry_of
entry_parts line timestamp level message a b c =
    λ i. record { timestamp = a i; level = b i; message = c i; raw = line }

NoPair-bracketed : (s : Text) → NoPair s → NoPair (b'[' ∷ s)
NoPair-bracketed [] h = tt
NoPair-bracketed (c ∷ s) h = (refl, h)

extract_timestamp-log_line :
    (timestamp rest : Text)
    → Lacks b']' timestamp
    → trim_blanks timestamp ≡ timestamp
    → extract_timestamp (b'[' ∷ (timestamp ++ (b']' ∷ rest))) ≡ timestamp
unfolding extract_timestamp has_prefix
extract_timestamp-log_line timestamp rest h l =
    rw (index-append b']' (b'[' ∷ timestamp) rest (refl, h), take_all timestamp (b']' ∷ rest)) l

level_in_part :
    (part a b : Text) → cut part (codes ":") ≡ some (a, b) → level_in part ≡ trim_space a
unfolding level_in
level_in_part part a b e = rw (e, level_in) refl

level_of_line :
    (line a b : Text)
    → cut line (codes "]") ≡ some (a, b)
    → extract_level line ≡ level_in (trim_space b)
unfolding extract_level
level_of_line line a b e = rw (e, extract_level) refl

message_of_line : (line a b : Text) → cut line (codes ": ") ≡ some (a, b) → extract_message line ≡ b
unfolding extract_message
message_of_line line a b e = rw (e, extract_message) refl

level_in-word :
    (level rest : Text)
    → IsWord level
    → Lacks b':' level
    → level_in (level ++ (b':' ∷ rest)) ≡ level
level_in-word level rest m n =
    level_in_part (level ++ (b':' ∷ rest)) level rest (cut-byte b':' level rest n)
    ∙ trim_space-word level m

-- What is trimmed behind the bracket.
trim_space-level :
    (level rest : Text)
    → IsWord level
    → trim_space (b' ' ∷ (level ++ (b':' ∷ rest))) ≡ level ++ (b':' ∷ trim_right rest)
unfolding trim_space trim_left is_space
trim_space-level level rest m =
    ap trim_right (trim_left-word level rest m) ∙ trim_right-word level rest m

extract_level-log_line :
    (timestamp level rest : Text)
    → Lacks b']' timestamp
    → IsWord level
    → Lacks b':' level
    → extract_level (b'[' ∷ (timestamp ++ (b']' ∷ b' ' ∷ (level ++ (b':' ∷ rest))))) ≡ level
extract_level-log_line timestamp level rest h m n =
    let behind = b' ' ∷ (level ++ (b':' ∷ rest)) in
    level_of_line (b'[' ∷ (timestamp ++ (b']' ∷ behind))) (b'[' ∷ timestamp) behind
      (cut-byte b']' (b'[' ∷ timestamp) behind (refl, h))
    ∙ ap level_in (trim_space-level level rest m)
    ∙ level_in-word level (trim_right rest) m n

extract_message-log_line :
    (before message : Text)
    → NoPair before
    → extract_message (before ++ (b':' ∷ b' ' ∷ message)) ≡ message
extract_message-log_line before message h =
    message_of_line (before ++ (b':' ∷ b' ' ∷ message)) before message (cut-pair before message h)

-- A line in the format of the source's comments is taken apart again: its timestamp, level and message
-- are those that it was made of, if the timestamp has no closing bracket, no blank at its ends and no
-- colon before a blank, and the level is a word with no colon.
pub entry_of-log_line :
    (timestamp level message : Text)
    → Lacks b']' timestamp
    → NoPair timestamp
    → trim_blanks timestamp ≡ timestamp
    → IsWord level
    → Lacks b':' level
    → let line = log_line timestamp level message in
      entry_of line ≡ record { timestamp = timestamp; level = level; message = message; raw = line }
entry_of-log_line timestamp level message h k l m n =
    let before = timestamp ++ (b']' ∷ b' ' ∷ level) in
    let rest = b':' ∷ b' ' ∷ message in
    let same : before ++ rest ≡ timestamp ++ (b']' ∷ b' ' ∷ (level ++ rest)) =
      append_assoc timestamp (b']' ∷ b' ' ∷ level) rest in
    let pairs = NoPair-bracket timestamp level k (Lacks-NoPair level n) in
    entry_parts (log_line timestamp level message) timestamp level message
      (extract_timestamp-log_line timestamp (b' ' ∷ (level ++ rest)) h l)
      (extract_level-log_line timestamp level (b' ' ∷ message) h m n)
      (ap (λ (t : Text). extract_message (b'[' ∷ t)) (sym same)
        ∙ extract_message-log_line (b'[' ∷ before) message (NoPair-bracketed before pairs))
