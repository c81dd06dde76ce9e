-- ===== src/Kv/Read.antt =====
-- `nos_kv_get` against the map from keys to values.
use gemini_nos.Base.{
  ℕ, ◌≡◌, ◌⊎◌, ◌≤◌, ◌<◌, inl, inr, refl, arith, none, some, Option-cases, List, nos_ok, nos_err,
}
use gemini_nos.Kv.{Table, get, find}
use gemini_nos.Kv.Invariant.{view, index}

module _ (t : Table) (key : List ℕ) (out : ℕ → ℕ) (room : ℕ) where
  -- `nos_kv_get` fails on a key that the table does not hold, and leaves the buffer and the length as
  -- they were. Of a key that it holds it gives the length of the value, and of the value as many
  -- bytes as there is room for; what lies behind those in the buffer stays.
  pub get_reads :
      ((view t key ≡ none) × (get t key out room ≡ (nos_err, out, room)))
      ⊎ ((len : ℕ) × (area : ℕ → ℕ) × (view t key ≡ some (len, area))
          × ((get t key out room).0 ≡ nos_ok)
          × ((get t key out room).2 ≡ len)
          × ((i : ℕ) → i < len → i < room → (get t key out room).1 i ≡ area i)
          × ((i : ℕ) → room ≤ i → (get t key out room).1 i ≡ out i))
  unfolding get view index
  get_reads = elim (Option-cases (find t key)) [
    | inl miss ↦ rw (miss, get) (inl (refl, refl))
    | inr ((p, i), hit) ↦
        rw (hit, get)
          (inr (
            (t.entry i).val_len,
            (t.entry i).val,
            refl,
            refl,
            refl,
            λ j short inside. ground arith,
            λ j past. ground arith,
          ))
  ]
