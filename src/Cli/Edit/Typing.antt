-- ===== src/Cli/Edit/Typing.antt =====
-- What comes of a line that is typed without corrections.
use gemini_nos.Base.{
  ℕ, ◌+◌, ◌-◌, ◌≤◌, ◌≡◌, refl, ap, ◌∙◌, arith, false, ◌||◌, ltb, leb, ◌==◌, if◌then◌else◌, List, [],
  ◌∷◌, ◌++◌, length, length-append,
}
use gemini_nos.Cli.{Line, History}
use gemini_nos.Cli.Edit.{Edit, ready, Got, got_line, got_unended, press, read_keys, get_line}

-- A byte that stands for itself: not an end of the line, an escape, a tab or a rub-out.
pub record IsPlain (c : ℕ) : Type 0 where
  pub no_end : ((c == 10) || (c == 13)) ≡ false
  pub no_escape : (c == 27) ≡ false
  pub no_rub_out : ((c == 127) || (c == 8)) ≡ false
  pub no_tab : (c == 9) ≡ false

pub data AllPlain : Line → Type 0 where
  none_left : AllPlain []
  and_then : {c : ℕ} {l : Line} → IsPlain c → AllPlain l → AllPlain (c ∷ l)

append_nil : (l : Line) → l ++ [] ≡ l
append_nil [] = refl
append_nil (c ∷ l) = ap (◌∷◌ c) (append_nil l)

append_assoc : (t : Line) (c : ℕ) (l : Line) → (t ++ c ∷ []) ++ l ≡ t ++ c ∷ l
append_assoc [] c l = refl
append_assoc (d ∷ t) c l = ap (◌∷◌ d) (append_assoc t c l)

abbrev at : Line → Edit
at t = record { text = t; h_idx = 0; pending = ready }

module _ (loaded : List Line) (h : History) (size : ℕ) where
  press_plain : (c : ℕ) (t : Line) → IsPlain c → press loaded h c (at t) ≡ at (t ++ c ∷ [])
  unfolding press
  press_plain c t p = rw (p.no_escape, p.no_rub_out, p.no_tab) refl

  -- What comes of a text.
  abbrev pub outcome : Line → Got
  outcome l = if ltb (length l) (size - 1) then got_line l else got_unended l

  typed :
      (l t : Line)
      → AllPlain l
      → length t + length l ≤ size - 1
      → read_keys loaded h size (l ++ 10 ∷ []) (at t) ≡ outcome (t ++ l)
  unfolding read_keys
  typed [] t p f = rw (append_nil t) (ground arith)
  typed (c ∷ l) t (and_then p ps) f =
      let room : leb (size - 1) (length t) ≡ false = ground (arith, f) in
      rw (room, p.no_end, press_plain c t p)
        (typed l (t ++ c ∷ []) ps (omega (arith, length-append t (c ∷ []), f))
          ∙ ap outcome (append_assoc t c l))

  -- A line of bytes that stand for themselves, typed and ended, is what is read, if it is shorter
  -- than the buffer by two or more; one that is shorter by one is read without its final 0.
  pub get_line_lem :
      (l : Line)
      → AllPlain l
      → length l ≤ size - 1
      → get_line loaded h size (l ++ 10 ∷ []) ≡ outcome l
  unfolding get_line
  get_line_lem l p f = typed l [] p (omega (arith, f))
