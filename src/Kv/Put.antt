-- ===== src/Kv/Put.antt =====
-- `nos_kv_put` as an update of the map from keys to values.
use gemini_nos.Base.{
  ℕ, ◌-◌, ◌≤◌, ◌<◌, ◌≡◌, ◌≢◌, ◌⊎◌, ℕ_discrete, inl, inr, refl, sym, ap, ◌∙◌, arith, true, false,
  Option, none, some, ltb, ◌==◌, update_ne, update_self, List, ==_iff, Option-cases, nos_ok,
  nos_err_busy,
}
use gemini_nos.Kv.{Entry, Table, same_key, find, set_entry, overwrite, add_entry, copy_value, put}
use gemini_nos.Kv.Chain.{same_key_self, same_key-eq, second, index_in-some}
use gemini_nos.Kv.Invariant.{KvInv, view, read, index, index-eq-index_in}
use gemini_nos.Kv.Write.{set_entry-KvInv, index-set_entry, add_entry-KvInv, view-add_entry, longer}

-- What a successful `nos_kv_put` of the first `n` bytes of `bytes` makes of a table: the map from
-- keys to values is updated at the key, and nowhere else.
pub record IsPut (t t' : Table) (key : List ℕ) (bytes : ℕ → ℕ) (n : ℕ) : Type 0 where
  pub chains : ℕ → List ℕ
  pub shape : KvInv t' chains
  pub area : ℕ → ℕ
  pub written : (i : ℕ) → i < n → area i ≡ bytes i
  pub at_key : view t' key ≡ some (n, area)
  pub elsewhere : (k : List ℕ) → same_key key k ≡ false → view t' k ≡ view t k

module _ {t : Table} {chains : ℕ → List ℕ} (v : KvInv t chains) (key : List ℕ) (bytes : ℕ → ℕ)
    (n : ℕ) where
  overwrite-IsPut :
      (p i : ℕ)
      → find t key ≡ some (p, i)
      → IsPut t (overwrite t i key (some bytes) n).0 key bytes n
  unfolding overwrite view index
  overwrite-IsPut p i e = record {
    chains = chains;
    shape = set_entry-KvInv v i changed refl refl;
    area = changed.val;
    written = λ j h. ground arith;
    at_key =
        ap (read (set_entry t i changed)) (index-set_entry v i changed refl refl key ∙ ap second e)
        ∙ ap (λ (r : Entry). some (r.val_len, r.val)) (update_self t.entry i changed);
    elsewhere = λ k other.
        ap (read (set_entry t i changed)) (index-set_entry v i changed refl refl k)
        ∙ kept k other (index t k) refl;
  }
    where
      changed : Entry
      changed = record (t.entry i) { val = copy_value (t.entry i).val (some bytes) n; val_len = n }

      held : same_key (t.entry i).key key ≡ true
      held = (index_in-some t.entry key _ i (sym (index-eq-index_in v key) ∙ ap second e)).0

      kept :
          (k : List ℕ)
          → same_key key k ≡ false
          → (o : Option ℕ) → index t k ≡ o
          → read (set_entry t i changed) o ≡ read t o
      kept k other none f = refl
      kept k other (some j) f =
          let found = index_in-some t.entry k _ j (sym (index-eq-index_in v k) ∙ f) in
          let ne : i ≢ j = λ same. ground (
            arith,
            other,
            ap (λ x. same_key x k) (sym (same_key-eq _ key held)),
            ap (λ x. same_key (t.entry x).key k) same,
            found.0,
          ) in
          ap (λ (r : Entry). some (r.val_len, r.val)) (update_ne t.entry changed ne)

  -- On a table in shape, `nos_kv_put` of a value that is not too long updates the map from keys to
  -- values at the key, and at no other, and keeps the table in shape; or the key is new, no entry is
  -- free, and it reports that it is busy and changes nothing.
  pub put_refines :
      n ≤ t.max_val_size
      → let r = put t (some key) (some bytes) n in
        ((r.0 ≡ nos_ok) × IsPut t r.1 key bytes n)
        ⊎ ((r.0 ≡ nos_err_busy) × (r.1 ≡ t) × (view t key ≡ none) × (t.free_top ≡ 0))
  unfolding put view index
  put_refines fits = elim (Option-cases (find t key)) [
    | inr ((p, i), hit) ↦ rw (short, hit, put) (inl (refl, overwrite-IsPut p i hit))
    | inl miss ↦ elim (ℕ_discrete t.free_top 0) [
      | yes full ↦
          rw (short, miss, put, (==_iff t.free_top 0).1 full) (inr (refl, refl, refl, full))
      | no room ↦
          rw (short, miss, put, some_free room) (inl (refl, added (ap second miss) (omega arith)))
    ]
  ]
    where
      short : ltb t.max_val_size n ≡ false
      short = ground arith

      some_free : t.free_top ≢ 0 → (t.free_top == 0) ≡ false
      some_free ne = ground arith

      added :
          index t key ≡ none → 0 < t.free_top → IsPut t (add_entry t key (some bytes) n) key bytes n
      added absent room = record {
        chains = longer v key (some bytes) n room absent;
        shape = add_entry-KvInv v key (some bytes) n room absent;
        area = copy_value (t.entry (t.free_stack (t.free_top - 1))).val (some bytes) n;
        written = λ j h. ground arith;
        at_key = view-add_entry v key (some bytes) n room absent key ∙ rw (same_key_self key);
        elsewhere = λ k other. view-add_entry v key (some bytes) n room absent k ∙ rw other;
      }

pub put-max_val_size :
    (t : Table) (key : List ℕ) (bytes : ℕ → ℕ) (n : ℕ)
    → (put t (some key) (some bytes) n).1.max_val_size ≡ t.max_val_size
unfolding put overwrite add_entry
put-max_val_size t key bytes n = ground arith
