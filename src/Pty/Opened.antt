-- ===== src/Pty/Opened.antt =====
-- The files and links of real virtual terminals.
use share_serial.Base.{
  ℕ, ◌≡◌, refl, true, false, Option, none, some, List, ◌∷◌, Text, arith, inl, inr, ==_iff, is_empty,
  ◌||◌, Dict, lookup, lookup-insert, text_eq_refl, if_cases, insert, Option-cases, not, ◌∙◌, ap,
  codes, ◌++◌, decimal, subst, lookup-delete_self, if◌then◌else◌, Bool, sym,
}
use share_serial.Pty.Real.{
  System, World, RealPty, create_real_pty, remove_one, opened, close_file, set_raw, link_up,
  open_slave, with_master, remove_link, default_termios, with_slave, create_real_pty_darwin,
  close_real_pty, first_slave, close_files,
}

remove_one_self : (f : ℕ) (fs : List ℕ) → remove_one f (f ∷ fs) ≡ fs
unfolding remove_one
remove_one_self f fs = ground (arith, ==_iff f f)

remove_both : (f g : ℕ) (fs : List ℕ) → remove_one g (remove_one f (g ∷ f ∷ fs)) ≡ fs
unfolding remove_one
remove_both f g fs = ground (arith, ==_iff f g, ==_iff g g, ==_iff f f, ==_iff g f)

-- Where a path links to; the empty path is no link.
abbrev pub links_to : World → Text → Option Text
links_to w path = if is_empty path then none else lookup path w.links

-- What `CreateRealPTY` leaves for a path: the files that were open and no device, or a device, open,
-- whose two files were opened, and which keeps the path and is linked there.
abbrev pub Result : World → Text → World × Option RealPty → Type 0
Result w path (v, none) = v.open_files ≡ w.open_files
Result w path (v, some r) =
    (v.open_files ≡ r.slave ∷ r.master ∷ w.open_files)
    × (r.is_open ≡ true)
    × (r.files_open ≡ true)
    × (r.termios ≡ default_termios)
    × (r.symlink_path ≡ path)
    × (links_to v path ≡ (if is_empty path then none else some r.slave_path))

linked_path :
    (w : World) (links : Dict Text) (path target : Text)
    → is_empty path ≡ false
    → links_to (record w { links = insert path target links }) path
      ≡ (if is_empty path then none else some target)
linked_path w links path target e =
    ground (arith, lookup-insert path path target links, text_eq_refl path)

remove_link-open_files :
    (sys : System) (v : World) (path : Text) → (remove_link sys v path).open_files ≡ v.open_files
unfolding remove_link
remove_link-open_files sys v path = ground arith

set_raw-open_files :
    (sys : System) (v : World) (slave : ℕ) → (set_raw sys v slave).open_files ≡ v.open_files
unfolding set_raw
set_raw-open_files sys v slave = ground arith

module _ (sys : System) where
  link_up-Result :
      (v w : World) (master slave : ℕ) (slave_path symlink_path : Text)
      → v.open_files ≡ slave ∷ master ∷ w.open_files
      → Result w symlink_path (link_up sys v master slave slave_path symlink_path)
  unfolding link_up close_file
  link_up-Result v w master slave slave_path symlink_path h =
      let kept = remove_link-open_files sys v symlink_path in
      if_cases (Result w symlink_path) (is_empty symlink_path) _ _
        (λ no_link. (h, refl, refl, refl, refl, ground arith))
        (λ wanted.
          if_cases (Result w symlink_path) (not (sys.can_link slave_path symlink_path)) _ _
            (λ refused. rw (kept, h) (remove_both master slave w.open_files))
            (λ linked. (
              kept ∙ h,
              refl,
              refl,
              refl,
              refl,
              linked_path (remove_link sys v symlink_path) (remove_link sys v symlink_path).links
                  symlink_path slave_path wanted,
            )))

  open_slave-Result :
      (v w : World) (master : ℕ) (slave_path symlink_path : Text)
      → v.open_files ≡ master ∷ w.open_files
      → Result w symlink_path (open_slave sys v master slave_path symlink_path)
  unfolding open_slave close_file opened set_raw
  open_slave-Result v w master slave_path symlink_path h =
      elim (Option-cases (sys.open_path slave_path)) [
        | inl e ↦ rw (e, open_slave, close_file, h) (remove_one_self master w.open_files)
        | inr (slave, e) ↦
            rw (e, open_slave)
              (link_up-Result (set_raw sys (opened v slave) slave) w master slave slave_path
                symlink_path
                (set_raw-open_files sys (opened v slave) slave ∙ ap (λ fs. slave ∷ fs) h))
      ]

  with_master-Result :
      (w : World) (master : ℕ) (symlink_path : Text)
      → Result w symlink_path (with_master sys (opened w master) master symlink_path)
  unfolding with_master close_file opened
  with_master-Result w master symlink_path =
      if_cases (Result w symlink_path) (not (sys.unlock master)) _ _
        (λ locked. remove_one_self master w.open_files)
        (λ unlocked. elim (Option-cases (sys.slave_id master)) [
          | inl e ↦ rw e (remove_one_self master w.open_files)
          | inr (n, e) ↦ rw e (
              open_slave-Result (opened w master) w master (codes "/dev/pts/" ++ decimal n)
                symlink_path refl)
        ])

  create-Result :
      (w : World) (symlink_path : Text) → Result w symlink_path (create_real_pty sys w symlink_path)
  unfolding create_real_pty
  create-Result w symlink_path = elim (Option-cases (sys.open_path (codes "/dev/ptmx"))) [
    | inl e ↦ rw (e, create_real_pty) refl
    | inr (master, e) ↦ rw (e, create_real_pty) (with_master-Result w master symlink_path)
  ]

  with_slave-Result :
      (w : World) (master : ℕ) (symlink_path : Text) (found : Option (Text × ℕ))
      → Result w symlink_path (with_slave sys (opened w master) master symlink_path found)
  unfolding with_slave close_file opened
  with_slave-Result w master symlink_path none = remove_one_self master w.open_files
  with_slave-Result w master symlink_path (some (path, slave)) =
      link_up-Result (opened (opened w master) slave) w master slave path symlink_path refl

  create_darwin-Result :
      (w : World) (symlink_path : Text)
      → Result w symlink_path (create_real_pty_darwin sys w symlink_path)
  unfolding create_real_pty_darwin
  create_darwin-Result w symlink_path = elim (Option-cases (sys.open_path (codes "/dev/ptmx"))) [
    | inl e ↦ rw (e, create_real_pty_darwin) refl
    | inr (master, e) ↦
        rw (e, create_real_pty_darwin) (with_slave-Result w master symlink_path (first_slave sys))
  ]

  -- `CreateRealPTY` leaves no file open when it fails, whichever call of the system fails, and else
  -- gives an open device with the two files that it opened and 115200 baud, which has the path it was
  -- given for its own, and leaves a link there to the slave, unless the path is empty; on Linux and on
  -- macOS.
  pub created :
      (w : World) (symlink_path : Text)
      → Result w symlink_path (create_real_pty sys w symlink_path)
        × Result w symlink_path (create_real_pty_darwin sys w symlink_path)
  created w symlink_path = (create-Result w symlink_path, create_darwin-Result w symlink_path)

close_now :
    (sys : System) (v : World) (r : RealPty)
    → r.is_open ≡ true
    → close_real_pty sys v r
      ≡ (close_files sys v r, record r { is_open = false; files_open = false })
unfolding close_real_pty
close_now sys v r h = ground arith

still_closed :
    (sys : System) (v : World) (r : RealPty)
    → let closed_pty : RealPty = record r { is_open = false; files_open = false } in
      close_real_pty sys v closed_pty ≡ (v, closed_pty)
unfolding close_real_pty
still_closed sys v r = refl

close_files-open_files :
    (sys : System) (v : World) (r : RealPty)
    → r.files_open ≡ true
    → (close_files sys v r).open_files ≡ remove_one r.slave (remove_one r.master v.open_files)
unfolding close_files close_file remove_link
close_files-open_files sys v r h = ground arith

close_files-links_to :
    (sys : System) (v : World) (r : RealPty)
    → links_to (close_files sys v r) r.symlink_path
      ≡ (if sys.can_remove r.symlink_path then none else links_to v r.symlink_path)
unfolding close_files close_file remove_link
close_files-links_to sys v r = ground (arith, lookup-delete_self r.symlink_path v.links)

close_files-left :
    (sys : System) (v : World) (r : RealPty) (path : Text)
    → r.symlink_path ≡ path
    → links_to v path ≡ (if is_empty path then none else some r.slave_path)
    → links_to (close_files sys v r) path
      ≡ (if is_empty path || sys.can_remove path then none else some r.slave_path)
close_files-left sys v r path e h =
    ap (links_to (close_files sys v r)) (sym e)
    ∙ close_files-links_to sys v r
    ∙ rw (e, h) (cases (is_empty path) (sys.can_remove path))
  where
    cases :
        (b c : Bool)
        → (if c then none else (if b then none else some r.slave_path))
          ≡ (if b || c then none else some r.slave_path)
    cases b c = ground arith

-- On Linux, closing a terminal that was created closes the files that were opened for it and no
-- others, removes the link at the path that it was created for, unless the system then refuses this,
-- which leaves the link to the slave; and closing it again changes nothing, whatever the system then
-- answers.
pub closed :
    (sys then_sys last_sys : System) (w v : World) (symlink_path : Text) (r : RealPty)
    → create_real_pty sys w symlink_path ≡ (v, some r)
    → let after = close_real_pty then_sys v r in
      (after.0.open_files ≡ w.open_files)
      × (links_to after.0 symlink_path ≡ (
          if is_empty symlink_path || then_sys.can_remove symlink_path
          then none
          else some r.slave_path))
      × (close_real_pty last_sys after.0 after.1 ≡ after)
closed sys then_sys last_sys w v symlink_path r e =
    let made : Result w symlink_path (v, some r) =
      subst (Result w symlink_path) e (create-Result sys w symlink_path) in
    rw (close_now then_sys v r made.1) (
      close_files-open_files then_sys v r made.2
          ∙ ap (λ fs. remove_one r.slave (remove_one r.master fs)) made.0
          ∙ remove_both r.master r.slave w.open_files,
      close_files-left then_sys v r symlink_path made.4 made.5,
      still_closed last_sys (close_files then_sys v r) r,
    )
