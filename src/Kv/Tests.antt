-- ===== src/Kv/Tests.antt =====
-- A table with one bucket and one entry, first free and then in use.
use gemini_nos.Base.{
  Bool, List, ◌==◌, if◌then◌else◌, zero, suc, ℕ, ◌≡◌, ◌≢◌, ◌⊎◌, refl, arith, some, none, [], ◌∷◌,
  nos_ok, nos_err_busy, nos_err,
}
use gemini_nos.Kv.{Sub, Table, bucket_of, put, del, invalid_idx}
use gemini_nos.Kv.Chain.{IsChain}
use gemini_nos.Kv.Create.{Database, new_table}
use gemini_nos.Kv.Create.Shape.{IsNew, new_table-IsNew}
use gemini_nos.Kv.Delete.{IsDeletion, del_refines}
use gemini_nos.Kv.Invariant.{KvInv, view, total}
use gemini_nos.Kv.Subs.{subscribed, subscribe, unsubscribe}
use gemini_nos.Kv.Subs.Notify.{unsubscribe_undoes}
use gemini_nos.Kv.Put.{IsPut, put_refines}

abbrev tiny : Table
tiny = record {
  key_size = 2;
  max_val_size = 8;
  capacity = 1;
  bucket_count = 1;
  first_idx = λ _. invalid_idx;
  entry = λ _. record { next_idx = 0; val_len = 0; sub_list = []; key = []; val = λ _. 0 };
  free_stack = λ i. i;
  free_top = 1;
  used_count = 0;
  readers = λ _. 0;
}

tiny-KvInv : KvInv tiny (λ _. [])
unfolding total
tiny-KvInv = record {
  linked = λ b. refl;
  once = λ b i. ground arith;
  proper = λ i p. ground arith;
  used = refl;
  all = refl;
  homed = λ b i h. absurd (omega arith);
  keyed = λ b i j h. absurd (omega arith);
  buckets = omega arith;
  fits = omega arith;
}

put_refines_example :
    let r = put tiny (some (7 ∷ 9 ∷ [])) (some (λ i. i)) 4 in
    ((r.0 ≡ nos_ok) × IsPut tiny r.1 (7 ∷ 9 ∷ []) (λ i. i) 4)
    ⊎ ((r.0 ≡ nos_err_busy) × (r.1 ≡ tiny) × (view tiny (7 ∷ 9 ∷ []) ≡ none) × (tiny.free_top ≡ 0))
put_refines_example = put_refines tiny-KvInv (7 ∷ 9 ∷ []) (λ i. i) 4 (omega arith)

new_table_example : IsNew (new_table 16 64 5000) 5000
new_table_example = new_table-IsNew 16 64 5000 (omega arith)

-- `tiny` with a value under the key of the bytes 7 and 9.
abbrev held : Table
held = record tiny {
  entry = λ _. record {
    next_idx = invalid_idx;
    val_len = 4;
    sub_list = [];
    key = 7 ∷ 9 ∷ [];
    val = λ i. i;
  };
  first_idx = λ b. if b == 0 then 0 else invalid_idx;
  free_top = 0;
  used_count = 1;
}

held_chains : ℕ → List ℕ
held_chains b = if b == 0 then 0 ∷ [] else []

held_linked : (b : ℕ) → IsChain held.entry (held.first_idx b) (held_chains b)
unfolding held_chains
held_linked zero = (refl, λ e. absurd (omega arith), refl)
held_linked (suc b) = let e : (suc b == 0) ≡ Bool.false = ground arith in rw e refl

held-KvInv : KvInv held held_chains
unfolding total held_chains bucket_of
held-KvInv = record {
  linked = λ b. held_linked b;
  once = λ b i. ground arith;
  proper = λ i p. ground arith;
  used = refl;
  all = refl;
  homed = λ b i h. ground arith;
  keyed = λ b i j h g e. ground arith;
  buckets = omega arith;
  fits = omega arith;
}

del_refines_example :
    ((view held (7 ∷ 9 ∷ []) ≡ none) × (del held (7 ∷ 9 ∷ []) ≡ (nos_err, held)))
    ⊎ ((view held (7 ∷ 9 ∷ []) ≢ none)
        × ((del held (7 ∷ 9 ∷ [])).0 ≡ nos_ok)
        × IsDeletion held (del held (7 ∷ 9 ∷ [])).1 (7 ∷ 9 ∷ []))
del_refines_example = del_refines held-KvInv (7 ∷ 9 ∷ [])

abbrev store : Database
store = record { table = λ i. held; name = λ i. i; count = 1 }

abbrev watcher : Sub
watcher = record { notify = 4198400; arg = 7 }

unsubscribe_undoes_example :
    (((subscribe held (7 ∷ 9 ∷ []) watcher).0 ≡ nos_ok)
      × (unsubscribe (subscribe held (7 ∷ 9 ∷ []) watcher).1 (7 ∷ 9 ∷ []) watcher ≡ (nos_ok, held)))
    ⊎ ((view held (7 ∷ 9 ∷ []) ≡ none)
        × (subscribe held (7 ∷ 9 ∷ []) watcher ≡ (nos_err, held))
        × (unsubscribe held (7 ∷ 9 ∷ []) watcher ≡ (nos_err, held)))
unfolding subscribed
unsubscribe_undoes_example = unsubscribe_undoes held-KvInv (7 ∷ 9 ∷ []) watcher (λ p i e. refl)
