-- ===== src/Serial/Fifo.antt =====
-- pkg/serial/serial.go: what is injected is read once and in order, and the handler's lock.
use share_serial.Base.{
  ℕ, ◌≡◌, refl, sym, ap, ◌∙◌, List, [], ◌∷◌, ◌++◌, append-nil, append_assoc, Text, take-append-drop,
  arith,
}
use share_serial.Serial.{ReadResult, bytes, read_error, MockSerialPort, read_mock, inject_input}

-- What the device side and the program do to the port's input.
pub data Op : Type 0 where
  injects : Text → Op
  reads : ℕ → Op

text_of : ReadResult → Text
text_of (bytes t) = t
text_of (read_error e) = []

-- The port, and all bytes read so far.
pub run : MockSerialPort → Text → List Op → MockSerialPort × Text
run m out [] = (m, out)
run m out (injects t ∷ ops) = run (inject_input m t) out ops
run m out (reads n ∷ ops) = let (m', r) = read_mock m n in run m' (out ++ text_of r) ops

abbrev pub injected : List Op → Text
injected [] = []
injected (injects t ∷ ops) = t ++ injected ops
injected (reads n ∷ ops) = injected ops

read_keeps :
    (m : MockSerialPort) (n : ℕ)
    → text_of (read_mock m n).1 ++ (read_mock m n).0.input_buffer ≡ m.input_buffer
unfolding read_mock text_of
read_keeps m n = split m.input_buffer refl
  where
    split :
        (t : Text)
        → m.input_buffer ≡ t
        → text_of (read_mock m n).1 ++ (read_mock m n).0.input_buffer ≡ m.input_buffer
    split [] e = ground (arith, e)
    split (b ∷ bs) e = ground (arith, e, take-append-drop n (b ∷ bs))

-- However injections and reads of any sizes alternate, the bytes read, followed by those that wait,
-- are those read before and those that came, each once and in order: the port loses and repeats
-- nothing.
pub port_fifo :
    (m : MockSerialPort) (out : Text) (ops : List Op)
    → let (m', out') = run m out ops in
      out' ++ m'.input_buffer ≡ (out ++ m.input_buffer) ++ injected ops
unfolding run inject_input
port_fifo m out [] = sym (append-nil (out ++ m.input_buffer))
port_fifo m out (injects t ∷ ops) = port_fifo (inject_input m t) out ops ∙ simp append_assoc
port_fifo m out (reads n ∷ ops) =
    port_fifo (read_mock m n).0 (out ++ text_of (read_mock m n).1) ops
    ∙ ap (λ (t : Text). t ++ injected ops)
        (append_assoc out _ _ ∙ ap (λ (t : Text). out ++ t) (read_keeps m n))
