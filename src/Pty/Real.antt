-- ===== src/Pty/Real.antt =====
-- internal/pty/real_pty_linux.go and real_pty_darwin.go: the real virtual terminal, over the
-- operating system.
use share_serial.Base.{
  ℕ, zero, suc, Bool, true, false, not, Option, none, some, List, [], ◌∷◌, ◌++◌, Text, codes,
  decimal, Dict, insert, delete, ◌==◌, if◌then◌else◌, is_empty,
}
use share_serial.Serial.{parity_none}
use share_serial.Pty.{TermiosConfig, MockPty, create_mock_pty}

-- The flags that the code clears, and those that it leaves.
pub data Flag : Type 0 where
  ignbrk brkint parmrk istrip inlcr igncr icrnl ixon : Flag
  opost : Flag
  echo echonl icanon isig iexten : Flag
  parenb : Flag
  other_flag : ℕ → Flag

-- `CSIZE` is the bits of a character's size.
pub record Termios : Type 0 where
  pub flags : Flag → Bool
  pub char_size : ℕ
  pub vmin : ℕ
  pub vtime : ℕ

abbrev pub raw_flag : (Flag → Bool) → Flag → Bool
raw_flag flags (other_flag n) = flags (other_flag n)
raw_flag flags _ = false

-- The settings as `cfmakeraw` makes them.
make_raw : Termios → Termios
make_raw t = record { flags = raw_flag t.flags; char_size = 8; vmin = 1; vtime = 0 }

-- What the system answers: the file descriptor that opening a path gives, whether `TIOCSPTLCK`
-- succeeds, the number from `TIOCGPTN`, the settings from `TCGETS`, and whether `Symlink` and
-- `Remove` succeed.
pub record System : Type 0 where
  pub open_path : Text → Option ℕ
  pub unlock : ℕ → Bool
  pub slave_id : ℕ → Option ℕ
  pub get_termios : ℕ → Option Termios
  pub can_link : Text → Text → Bool
  pub can_remove : Text → Bool

-- The open file descriptors, the symbolic links, and the settings that were made.
pub record World : Type 0 where
  pub open_files : List ℕ
  pub links : Dict Text
  pub settings : List (ℕ × Termios)

unfoldable pub remove_one : ℕ → List ℕ → List ℕ
remove_one f [] = []
remove_one f (g ∷ fs) = if f == g then fs else g ∷ remove_one f fs

unfoldable pub opened : World → ℕ → World
opened w f = record w { open_files = f ∷ w.open_files }

-- `f.Close()`
unfoldable pub close_file : World → ℕ → World
unfolding remove_one
close_file w f = record w { open_files = remove_one f w.open_files }

-- `os.Remove(path)`, whose error the code ignores.
unfoldable pub remove_link : System → World → Text → World
remove_link sys w path = if sys.can_remove path then record w { links = delete path w.links } else w

-- `files_open` tells whether the two `os.File`s are open: closing them again has no effect.
pub record RealPty : Type 0 where
  pub master : ℕ
  pub slave : ℕ
  pub slave_path : Text
  pub symlink_path : Text
  pub is_open : Bool
  pub files_open : Bool
  pub termios : TermiosConfig

unfoldable pub default_termios : TermiosConfig
default_termios = record { baud_rate = 115200; data_bits = 8; stop_bits = 1; parity = parity_none }

module _ (sys : System) where
  -- The settings of the slave, if it has any.
  unfoldable pub set_raw : World → ℕ → World
  unfolding make_raw
  set_raw w slave = elim (sys.get_termios slave) [
    | none ↦ w
    | some t ↦ record w { settings = (slave, make_raw t) ∷ w.settings }
  ]

  -- The end of `CreateRealPTY`: the symbolic link, if one is wanted, and the device.
  unfoldable pub link_up : World → ℕ → ℕ → Text → Text → World × Option RealPty
  unfolding remove_link close_file default_termios
  link_up w master slave slave_path symlink_path =
      let device : RealPty = record {
        master = master;
        slave = slave;
        slave_path = slave_path;
        symlink_path = symlink_path;
        is_open = true;
        files_open = true;
        termios = default_termios;
      } in
      let removed = remove_link sys w symlink_path in
      if is_empty symlink_path
      then (w, some device)
      else if not (sys.can_link slave_path symlink_path)
      then (close_file (close_file removed master) slave, none)
      else (record removed { links = insert symlink_path slave_path removed.links }, some device)

  unfoldable pub open_slave : World → ℕ → Text → Text → World × Option RealPty
  unfolding opened close_file set_raw link_up
  open_slave w master slave_path symlink_path = elim (sys.open_path slave_path) [
    | none ↦ (close_file w master, none)
    | some slave ↦ link_up (set_raw (opened w slave) slave) master slave slave_path symlink_path
  ]

  unfoldable pub with_master : World → ℕ → Text → World × Option RealPty
  unfolding close_file open_slave
  with_master w master symlink_path =
      if not (sys.unlock master) then (close_file w master, none) else elim (sys.slave_id master) [
        | none ↦ (close_file w master, none)
        | some n ↦ open_slave w master (codes "/dev/pts/" ++ decimal n) symlink_path
      ]

  -- `CreateRealPTY` on Linux; `none` is its error.
  unfoldable pub create_real_pty : World → Text → World × Option RealPty
  unfolding opened with_master
  create_real_pty w symlink_path = elim (sys.open_path (codes "/dev/ptmx")) [
    | none ↦ (w, none)
    | some master ↦ with_master (opened w master) master symlink_path
  ]

  -- The loop over the slaves from number `i`, so many of them.
  find_slave : ℕ → ℕ → Option (Text × ℕ)
  find_slave zero i = none
  find_slave (suc n) i =
      let rest = find_slave n (suc i) in
      let path = codes "/dev/ttyp" ++ decimal i in
      elim (sys.open_path path) [ none ↦ rest | some slave ↦ some (path, slave) ]

  -- `/dev/ttyp0`, and then the loop, which tries it again.
  unfoldable pub first_slave : Option (Text × ℕ)
  unfolding find_slave
  first_slave = elim (sys.open_path (codes "/dev/ttyp0")) [
    | none ↦ find_slave 10 0
    | some slave ↦ some (codes "/dev/ttyp0", slave)
  ]

  unfoldable pub with_slave : World → ℕ → Text → Option (Text × ℕ) → World × Option RealPty
  unfolding opened close_file link_up
  with_slave w master symlink_path none = (close_file w master, none)
  with_slave w master symlink_path (some (path, slave)) =
      link_up (opened w slave) master slave path symlink_path

  -- `CreateRealPTY` on macOS.
  unfoldable pub create_real_pty_darwin : World → Text → World × Option RealPty
  unfolding opened with_slave first_slave
  create_real_pty_darwin w symlink_path = elim (sys.open_path (codes "/dev/ptmx")) [
    | none ↦ (w, none)
    | some master ↦ with_slave (opened w master) master symlink_path first_slave
  ]

-- `PTYDevice`
pub data PtyDevice : Type 0 where
  real_pty : RealPty → PtyDevice
  mock_pty : MockPty → PtyDevice

-- `CreatePTY`, with what `CreateRealPTY` gives; the stand-in is made without fail.
unfoldable create_pty : Text → World × Option RealPty → World × PtyDevice
unfolding create_mock_pty
create_pty symlink_path (w, none) = (w, mock_pty (create_mock_pty symlink_path))
create_pty symlink_path (w, some r) = (w, real_pty r)

unfoldable pub close_files : System → World → RealPty → World
unfolding close_file remove_link
close_files sys w r =
    let closed = if r.files_open then close_file (close_file w r.master) r.slave else w in
    if is_empty r.symlink_path then closed else remove_link sys closed r.symlink_path

-- `Close` on Linux does nothing the second time.
unfoldable pub close_real_pty : System → World → RealPty → World × RealPty
unfolding close_files
close_real_pty sys w r =
    if not r.is_open
    then (w, r)
    else (close_files sys w r, record r { is_open = false; files_open = false })

-- `Close` on macOS has no such test.
unfoldable pub close_real_pty_darwin : System → World → RealPty → World × RealPty
unfolding close_files
close_real_pty_darwin sys w r =
    (close_files sys w r, record r { is_open = false; files_open = false })

-- The file that a call goes to; `none` is the error of a closed terminal. `Read` and `Write` go to the
-- master, `ReadFromSlave` and `InjectExternalData` to the slave, the last one in any case.
unfoldable master_of : RealPty → Option ℕ
master_of r = if not r.is_open then none else some r.master

unfoldable slave_of : RealPty → Option ℕ
slave_of r = if not r.is_open then none else some r.slave

unfoldable pub set_termios_real : RealPty → TermiosConfig → RealPty
set_termios_real r config = record r { termios = config }
