-- ===== src/Report/Pages/Tags.antt =====
-- cmd/report-generator/main.go: the tags of a page, and how they depend on its parts.

pub mod Contents
use share_serial.Base.{
  ℕ, ◌≡◌, refl, ap, sym, ◌∙◌, Bool, true, false, not, ◌&&◌, List, [], ◌∷◌, ◌++◌, append_assoc, Text,
  codes, unlines, member, member-append, member-decimal, decimal, ◌==◌, if◌then◌else◌, arith,
  Bool-cases, inl, inr,
}
use share_serial.Report.Pages.{escape, escape_char}
use share_serial.Report.Pages.Tables.Lines.{unlines-append}

-- What stands between `<` and `>`, with these; the Boolean tells whether the text begins in a tag.
unfoldable pub tags : Bool → Text → Text
tags b [] = []
tags false (c ∷ s) =
    let tag = c ∷ tags true s in let on = tags false s in if c == b'<' then tag else on
tags true (c ∷ s) = c ∷ tags (not (c == b'>')) s

tags_outside : (s t : Text) → member b'<' s ≡ false → tags false (s ++ t) ≡ tags false t
unfolding tags
tags_outside [] t h = refl
tags_outside (c ∷ s) t h = ground (arith, tags_outside s t)

tags_inside : (s t : Text) → member b'>' s ≡ false → tags true (s ++ t) ≡ s ++ tags true t
unfolding tags
tags_inside [] t h = refl
tags_inside (c ∷ s) t h = ground (arith, tags_inside s t)

escape_char_plain :
    (c : ℕ) → (member b'<' (escape_char c) ≡ false) × (member b'>' (escape_char c) ≡ false)
unfolding escape_char
escape_char_plain c = (ground arith, ground arith)

escape_plain : (s : Text) → (member b'<' (escape s) ≡ false) × (member b'>' (escape s) ≡ false)
unfolding escape
escape_plain [] = (refl, refl)
escape_plain (c ∷ s) =
    let (lt, gt) = escape_char_plain c in
    let (lts, gts) = escape_plain s in
    (
      member-append b'<' (escape_char c) (escape s) ∙ rw lt lts,
      member-append b'>' (escape_char c) (escape s) ∙ rw gt gts,
    )

-- Outside tags a value adds none, whatever it is; in a tag it stands as it is, and does not end the tag.
pub tags-value : (x t : Text) → tags false (escape x ++ t) ≡ tags false t
tags-value x t = tags_outside (escape x) t (escape_plain x).0

pub tags-number : (n : ℕ) (t : Text) → tags false (decimal n ++ t) ≡ tags false t
tags-number n t = tags_outside (decimal n) t (member-decimal b'<' n (inr (omega arith)))

pub tags-attribute : (x t : Text) → tags true (escape x ++ t) ≡ escape x ++ tags true t
tags-attribute x t = tags_inside (escape x) t (escape_plain x).1

pub ruleset tag_laws = (append_assoc, tags-value, tags-number, tags-attribute)

-- Lines that show the same tags, and end outside them.
pub record SameTags (ls ms : List Text) : Type 0 where
  same :
      (t u : Text)
      → tags false t ≡ tags false u
      → tags false (unlines ls ++ t) ≡ tags false (unlines ms ++ u)

pub SameTags-nil : SameTags [] []
SameTags-nil = record { same = λ t u e. e }

pub SameTags-append :
    {ls ms ls' ms' : List Text}
    → SameTags ls ms
    → SameTags ls' ms'
    → SameTags (ls ++ ls') (ms ++ ms')
SameTags-append {ls} {ms} {ls'} {ms'} p q = record {
  same = λ t u e.
      ap (tags false) (
        ap (λ (w : Text). w ++ t) (unlines-append ls ls')
        ∙ append_assoc (unlines ls) (unlines ls') t)
      ∙ p.same (unlines ls' ++ t) (unlines ms' ++ u) (q.same t u e)
      ∙ ap (tags false) (
          sym (
            ap (λ (w : Text). w ++ u) (unlines-append ms ms')
            ∙ append_assoc (unlines ms) (unlines ms') u));
}
