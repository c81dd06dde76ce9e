-- ===== src/Cli/Edit.antt =====
-- The editing of a line: `advanced_get_line` and `handle_tab_completion`. The text is what stands in
-- `buf` before `pos`. The terminal is given as the list of the bytes that it sends; its end is a
-- `read` that fails.
pub mod Typing
pub mod Completing
mod Tests
use gemini_nos.Base.{
  ℕ, zero, suc, ◌+◌, ◌-◌, Bool, true, false, ◌&&◌, ◌||◌, Option, none, some, ltb, leb, ◌==◌,
  if◌then◌else◌, List, [], ◌∷◌, ◌++◌, length, map,
}
use gemini_nos.Cli.{Line, bytes, same_line, after, name_of, cli_cmds, History}

-- Where the reader stands: at the top of the loop, behind an escape, or behind an escape and one
-- more byte.
pub data Pending : Type 0 where
  ready escaped : Pending
  bracketed : ℕ → Pending

-- `h_idx` is one more than in the source, where it starts at -1.
pub record Edit : Type 0 where
  pub text : Line
  pub h_idx : ℕ
  pub pending : Pending

-- What `advanced_get_line` leaves in `buf`: a line with its final 0, a text without it, or nothing.
pub data Got : Type 0 where
  got_line got_unended : Line → Got
  got_nothing : Got

-- `s + match_len` for each of the names that begins with what is typed.
pub endings : Line → List Line → List Line
endings typed [] = []
endings typed (name ∷ names) =
    let rest = endings typed names in elim (after typed name) [ none ↦ rest | some s ↦ s ∷ rest ]

-- What stands behind the last space, if there is one.
pub last_word : Line → Option Line
last_word [] = none
last_word (c ∷ l) = elim (last_word l) [ some w ↦ some w | none ↦ if c == 32 then some l else none ]

abbrev begins : Line → Line → Bool
begins l prefix = elim (after prefix l) [ none ↦ false | some rest ↦ true ]

-- The names of the arguments behind a command, by the text so far; `loaded` are the names of the
-- components. For some texts there is a hint only.
pub vocabulary : List Line → Line → Line → List Line
unfolding same_line after
vocabulary loaded text word =
    if begins text (bytes "log ")
    then (if same_line text (bytes "log level ")
        then []
        else if begins text (bytes "log level ")
        then bytes "DEBUG" ∷ bytes "INFO" ∷ bytes "WARN" ∷ bytes "ERROR" ∷ []
        else if same_line text (bytes "log " ++ word)
        then bytes "stats" ∷ bytes "level" ∷ bytes "spam" ∷ []
        else [])
    else if begins text (bytes "perf ")
    then (if same_line text (bytes "perf start ") || same_line text (bytes "perf remote ")
        then []
        else bytes "start" ∷ bytes "remote" ∷ [])
    else if begins text (bytes "show ")
    then bytes "components" ∷ bytes "services" ∷ bytes "db" ∷ bytes "memory" ∷ bytes "ipc" ∷ []
    else if begins text (bytes "clear ")
    then bytes "ipc" ∷ []
    else if begins text (bytes "load ")
        || begins text (bytes "unload ")
        || begins text (bytes "reload ")
    then loaded
    else []

-- The suggestions, as what each adds to the text.
pub suggestions : List Line → Line → List Line
unfolding endings last_word vocabulary
suggestions loaded text = elim (endings text (map name_of cli_cmds)) [
  | s ∷ more ↦ s ∷ more
  | [] ↦ elim (last_word text) [
    | none ↦ []
    | some word ↦ endings word (vocabulary loaded text word)
  ]
]

-- `handle_tab_completion`: one suggestion is taken, and several are printed.
pub complete : List Line → Line → Line
unfolding suggestions
complete loaded text = elim (suggestions loaded text) [
  | [] ↦ text
  | s ∷ more ↦ elim more [ [] ↦ text ++ s | t ∷ rest ↦ text ]
]

-- The text without its last byte
abbrev pub rub_out : Line → Line
rub_out [] = []
rub_out (c ∷ []) = []
rub_out (c ∷ d ∷ l) = c ∷ rub_out (d ∷ l)

-- The key `up`: the next older line of the history.
pub older : History → Edit → Edit
older h e =
    if ltb e.h_idx h.count
    then record { text = h.line e.h_idx; h_idx = e.h_idx + 1; pending = ready }
    else record e { pending = ready }

module _ (loaded : List Line) (h : History) where
  -- What the loop does with a byte that does not end it.
  pub press : ℕ → Edit → Edit
  unfolding older complete
  press c e = elim (e.pending) [
    | escaped ↦ record e { pending = bracketed c }
    | bracketed b ↦ if (b == b'[') && (c == b'A') then older h e else record e { pending = ready }
    | ready ↦
        if c == 27
        then record e { pending = escaped }
        else if (c == 127) || (c == 8)
        then record e { text = rub_out e.text }
        else if c == 9
        then record e { text = complete loaded e.text }
        else record e { text = e.text ++ c ∷ [] }
  ]

  -- What comes of the end of the terminal.
  abbrev at_end : ℕ → Edit → Got
  at_end size e = elim (e.pending) [
    | ready ↦ if leb (size - 1) (length e.text) then got_unended e.text else got_nothing
    | escaped ↦ got_unended e.text
    | bracketed b ↦ got_unended e.text
  ]

  abbrev pub at_top : Edit → Bool
  at_top e = elim (e.pending) [ ready ↦ true | escaped ↦ false | bracketed b ↦ false ]

  -- The loop of `advanced_get_line` for a buffer of `size` bytes.
  pub read_keys : ℕ → List ℕ → Edit → Got
  unfolding press
  read_keys size [] e = at_end size e
  read_keys size (c ∷ keys) e =
      let rest = read_keys size keys (press c e) in
      if at_top e && leb (size - 1) (length e.text)
      then got_unended e.text
      else if at_top e && ((c == 10) || (c == 13))
      then got_line e.text
      else rest

  -- `advanced_get_line`
  pub get_line : ℕ → List ℕ → Got
  unfolding read_keys
  get_line size keys = read_keys size keys (record { text = []; h_idx = 0; pending = ready })
