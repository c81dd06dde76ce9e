-- ===== src/Cli/Recent.antt =====
-- The history against the list of the last lines, the newest first.
use gemini_nos.Base.{
  ℕ, zero, suc, ◌+◌, ◌-◌, ◌≤◌, ◌<◌, ◌≡◌, ◌≢◌, inl, inr, refl, ap, ap₂, ◌∙◌, arith, true, false,
  Bool-cases, ◌&&◌, ltb, ◌==◌, if◌then◌else◌, List, [], ◌∷◌, entries_from,
}
use gemini_nos.Cli.{Line, same_line, History, max_history, history_add}

abbrev pub recent : History → List Line
recent h = entries_from h.line 0 h.count

-- The first `n` of a list.
pub first_of {ℓ} : {A : Type ℓ} → ℕ → List A → List A
first_of zero xs = []
first_of (suc n) [] = []
first_of (suc n) (x ∷ xs) = x ∷ first_of n xs

same_line-eq : (a b : Line) → same_line a b ≡ true → a ≡ b
unfolding same_line
same_line-eq [] [] h = refl
same_line-eq [] (y ∷ b) h = absurd (cc)
same_line-eq (x ∷ a) [] h = absurd (cc)
same_line-eq (x ∷ a) (y ∷ b) h = ap₂ ◌∷◌ (ground arith) (same_line-eq a b (ground arith))

same_line_self : (a : Line) → same_line a a ≡ true
unfolding same_line
same_line_self [] = refl
same_line_self (x ∷ a) = ground (arith, same_line_self a)

-- The lines once a new one has moved the others up.
moved : (ℕ → Line) → Line → ℕ → Line
moved line cmd i = if i == 0 then cmd else if ltb i max_history then line (i - 1) else line i

grown : ℕ → ℕ
grown n = if ltb n max_history then n + 1 else n

recent-moved :
    (line : ℕ → Line) (cmd : Line) (n : ℕ)
    → n ≤ max_history
    → entries_from (moved line cmd) 0 (grown n) ≡ first_of 3 (cmd ∷ entries_from line 0 n)
unfolding moved grown first_of
recent-moved line cmd zero h = refl
recent-moved line cmd (suc zero) h = refl
recent-moved line cmd (suc (suc zero)) h = refl
recent-moved line cmd (suc (suc (suc zero))) h = refl
recent-moved line cmd (suc (suc (suc (suc n)))) h = absurd (omega arith)

-- What comes of a line for the history.
pub data Added (cmd : Line) (h : History) : History → Type 0 where
  repeated : (rest : List Line) → recent h ≡ cmd ∷ rest → Added cmd h h
  added :
      {h' : History}
      → ((rest : List Line) → recent h ≢ cmd ∷ rest)
      → recent h' ≡ first_of 3 (cmd ∷ recent h)
      → h'.count ≤ max_history
      → Added cmd h h'

newest :
    (line : ℕ → Line) (n : ℕ) → 0 < n → (rest : List Line) × (entries_from line 0 n ≡ line 0 ∷ rest)
newest line zero p = absurd (omega arith)
newest line (suc n) p = (entries_from line 1 n, refl)

other_first :
    (line : ℕ → Line) (cmd : Line) (n : ℕ)
    → (ltb 0 n && same_line (line 0) cmd) ≡ false
    → (rest : List Line) → entries_from line 0 n ≢ cmd ∷ rest
other_first line cmd zero h rest e = absurd (cc)
other_first line cmd (suc n) h rest e =
    let same : line 0 ≡ cmd = cc in
    let alike : same_line (line 0) cmd ≡ true =
      ap (λ l. same_line l cmd) same ∙ same_line_self cmd in
    absurd (ground (arith, h, alike))

-- A line that is not empty and is the newest of the history already leaves it as it is; any other
-- goes before the lines there, of which the newest two stay.
pub history_add_lem :
    (c : ℕ) (cmd : Line) (h : History)
    → h.count ≤ max_history
    → Added (c ∷ cmd) h (history_add (c ∷ cmd) h)
unfolding history_add moved grown
history_add_lem c cmd h few = elim (Bool-cases (ltb 0 h.count && same_line (h.line 0) (c ∷ cmd))) [
  | inl again ↦
      let some_there : 0 < h.count = ground arith in
      let same = same_line-eq (h.line 0) (c ∷ cmd) (ground arith) in
      let (rest, e) = newest h.line h.count some_there in
      rw again (repeated rest (e ∙ ap (λ l. l ∷ rest) same))
  | inr new ↦ rw new (
      added (other_first h.line (c ∷ cmd) h.count new) (recent-moved h.line (c ∷ cmd) h.count few)
        (ground arith))
]
