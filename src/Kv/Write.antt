-- ===== src/Kv/Write.antt =====
-- The two writes of `nos_kv_put`: to an entry that is there, and to a free one.
use gemini_nos.Base.{
  ℕ, ◌+◌, ◌-◌, ◌≤◌, ◌<◌, ◌≡◌, ◌≢◌, ◌⊎◌, ℕ_discrete, inl, inr, refl, sym, ap, ap₂, ◌∙◌, subst, arith,
  Option, none, some, ◌==◌, if◌then◌else◌, update, update_ne, update_self, update_ind, List, [],
  ◌∷◌, count, Bool-cases,
}
use gemini_nos.FreeStack.{entries, entries-pop}
use gemini_nos.Kv.{Entry, Table, same_key, bucket_of, set_entry, add_entry, copy_value}
use gemini_nos.Kv.Chain.{
  IsChain, same_key-eq, index_in, IsChain-relink, IsChain-update, index_in-update, index_in-rekey,
  index_in-some, index_in-none,
}
use gemini_nos.Kv.Invariant.{
  KvInv, total, total-update, bucket_of-lt, view, read, index, index-eq-index_in,
}

module _ {t : Table} {chains : ℕ → List ℕ} (v : KvInv t chains) (i : ℕ) (e : Entry)
    (link : e.next_idx ≡ (t.entry i).next_idx) (same : e.key ≡ (t.entry i).key) where
  key_kept : (k : ℕ) → (update t.entry i e k).key ≡ (t.entry k).key
  key_kept k = update_ind t.entry (λ j (x : Entry). x.key ≡ (t.entry j).key) i k e same (λ _. refl)

  -- A write to an entry that keeps its link and its key keeps the table in shape.
  pub set_entry-KvInv : KvInv (set_entry t i e) chains
  unfolding bucket_of
  set_entry-KvInv = record {
    linked = λ b. IsChain-relink t.entry i e (t.first_idx b) (chains b) link (v.linked b);
    once = v.once;
    proper = v.proper;
    used = v.used;
    all = v.all;
    homed = λ b k h. ap (bucket_of t) (key_kept k) ∙ v.homed b k h;
    keyed = λ b j k p q eq. v.keyed b j k p q (sym (key_kept j) ∙ eq ∙ key_kept k);
    buckets = v.buckets;
    fits = v.fits;
  }

  -- And every key is found where it was.
  pub index-set_entry : (key : List ℕ) → index (set_entry t i e) key ≡ index t key
  unfolding bucket_of
  index-set_entry key =
      index-eq-index_in set_entry-KvInv key
      ∙ index_in-rekey t.entry i e key (chains (bucket_of t key)) same
      ∙ sym (index-eq-index_in v key)

-- A free entry becomes the head of the chain of its key.
module _ {t : Table} {chains : ℕ → List ℕ} (v : KvInv t chains) (key : List ℕ)
    (val : Option (ℕ → ℕ)) (n : ℕ) (room : 0 < t.free_top) (absent : index t key ≡ none) where
  abbrev pub top : ℕ
  top = t.free_stack (t.free_top - 1)

  abbrev pub longer : ℕ → List ℕ
  longer = update chains (bucket_of t key) (top ∷ chains (bucket_of t key))

  b : ℕ
  b = bucket_of t key

  new_entry : Entry
  new_entry = record {
    next_idx = t.first_idx b;
    val_len = n;
    sub_list = [];
    key = key;
    val = copy_value (t.entry top).val val n;
  }

  -- The index taken was free, and is in no chain.
  count-free :
      (k : ℕ)
      → count k (entries t.free_stack t.free_top)
        ≡ (if top == k then 1 else 0) + count k (entries t.free_stack (t.free_top - 1))
  count-free k = ap (count k) (entries-pop t.free_stack t.free_top room)

  top_apart : (c : ℕ) → count top (chains c) ≡ 0
  top_apart c = ground (arith, v.once c top, count-free top)

  linked_new :
      (c : ℕ) → IsChain (update t.entry top new_entry) (update t.first_idx b top c) (longer c)
  unfolding b new_entry
  linked_new c = elim (ℕ_discrete b c) [
    | yes e ↦
        subst (λ d. IsChain (update t.entry top new_entry) (update t.first_idx b top d) (longer d))
          e
          (rw (update_self t.first_idx b top, update_self chains b (top ∷ chains b))
            (
              refl,
              v.proper top (ground (arith, count-free top)),
              rw (update_self t.entry top new_entry) (
                  IsChain-update t.entry top new_entry (t.first_idx b) (chains b) (top_apart b)
                    (v.linked b)),
            ))
    | no ne ↦
        rw (update_ne t.first_idx top ne, update_ne chains (top ∷ chains b) ne)
          (IsChain-update t.entry top new_entry (t.first_idx c) (chains c) (top_apart c)
            (v.linked c))
  ]

  -- An index in the new chains is the one taken, in the bucket of the key, or an old one.
  in_longer :
      (c k : ℕ)
      → 0 < count k (longer c)
      → ((top ≡ k) × (b ≡ c)) ⊎ ((top ≢ k) × (0 < count k (chains c)))
  unfolding b
  in_longer c k = elim (ℕ_discrete b c) [
    | yes e ↦
        subst
          (λ d.
            0 < count k (longer d) → ((top ≡ k) × (b ≡ d)) ⊎ ((top ≢ k) × (0 < count k (chains d))))
          e
          (rw (update_self chains b (top ∷ chains b)) (λ h. elim (ℕ_discrete top k) [
            | yes here ↦ inl (here, refl)
            | no on ↦ inr (on, ground arith)
          ]))
    | no ne ↦
        rw (update_ne chains (top ∷ chains b) ne)
          (λ h. inr (λ e. ground (arith, top_apart c, ap (λ j. count j (chains c)) e), h))
  ]

  key_top : {k : ℕ} → top ≡ k → (update t.entry top new_entry k).key ≡ key
  unfolding new_entry
  key_top e =
      ap (λ (x : Entry). x.key)
        (ap (update t.entry top new_entry) (sym e) ∙ update_self t.entry top new_entry)

  key_old : {k : ℕ} → top ≢ k → (update t.entry top new_entry k).key ≡ (t.entry k).key
  key_old ne = ap (λ (x : Entry). x.key) (update_ne t.entry new_entry ne)

  -- The key was in no chain.
  key_new : (c k : ℕ) → b ≡ c → 0 < count k (chains c) → (t.entry k).key ≢ key
  unfolding b
  key_new c k e h =
      index_in-none t.entry key (chains b) k (sym (index-eq-index_in v key) ∙ absent)
        (subst (λ d. 0 < count k (chains d)) (sym e) h)

  homed_new :
      (c k : ℕ) → 0 < count k (longer c) → bucket_of t (update t.entry top new_entry k).key ≡ c
  unfolding b
  homed_new c k h = elim (in_longer c k h) [
    | inl (e, f) ↦ ap (bucket_of t) (key_top e) ∙ f
    | inr (ne, old) ↦ ap (bucket_of t) (key_old ne) ∙ v.homed c k old
  ]

  keyed_new :
      (c j k : ℕ)
      → 0 < count j (longer c)
      → 0 < count k (longer c)
      → (update t.entry top new_entry j).key ≡ (update t.entry top new_entry k).key
      → j ≡ k
  keyed_new c j k p q same = elim (in_longer c j p) [
    | inl (e, f) ↦ elim (in_longer c k q) [
      | inl (e', _) ↦ sym e ∙ e'
      | inr (ne, old) ↦ absurd (key_new c k f old (sym (key_old ne) ∙ sym same ∙ key_top e))
    ]
    | inr (ne, old) ↦ elim (in_longer c k q) [
      | inl (e', f) ↦ absurd (key_new c j f old (sym (key_old ne) ∙ same ∙ key_top e'))
      | inr (ne', old') ↦ v.keyed c j k old old' (sym (key_old ne) ∙ same ∙ key_old ne')
    ]
  ]

  pub add_entry-KvInv : KvInv (add_entry t key val n) longer
  unfolding add_entry b new_entry bucket_of
  add_entry-KvInv = record {
    linked = linked_new;
    once = λ c k.
        update_ind chains (λ _ is. count k (entries t.free_stack (t.free_top - 1)) + count k is ≤ 1)
          b c _ (ground (arith, count-free k, v.once b k))
          (λ ne. ground (arith, count-free k, v.once c k));
    proper = λ k h. v.proper k (ground (arith, count-free k));
    used = ground (arith, grown, v.used, v.all, v.fits);
    all = ground (arith, v.all, v.fits);
    homed = homed_new;
    keyed = keyed_new;
    buckets = v.buckets;
    fits = v.fits;
  }
    where
      grown : total longer t.bucket_count ≡ total chains t.bucket_count + 1
      grown =
          omega (arith, total-update chains t.bucket_count b (top ∷ chains b) (bucket_of-lt v key))

  in_chain :
      (k : List ℕ)
      → index_in (update t.entry top new_entry) k (top ∷ chains b)
        ≡ (if same_key key k then some top else index_in t.entry k (chains b))
  unfolding new_entry
  in_chain k =
      ap₂ (λ held rest. if same_key held k then some top else rest)
        (ap (λ r. r.key) (update_self t.entry top new_entry))
        (index_in-update t.entry top new_entry k (chains b) (top_apart b))

  index_longer :
      (k : List ℕ) (c : ℕ)
      → c ≡ bucket_of t k
      → index_in (update t.entry top new_entry) k (longer c)
        ≡ (if same_key key k then some top else index_in t.entry k (chains c))
  unfolding b
  index_longer k c at = elim (ℕ_discrete b c) [
    | yes e ↦
        subst
          (λ d.
            index_in (update t.entry top new_entry) k (longer d)
            ≡ (if same_key key k then some top else index_in t.entry k (chains d)))
          e (rw (update_self chains b (top ∷ chains b)) (in_chain k))
    | no ne ↦ elim (Bool-cases (same_key key k)) [
      | inl same ↦ absurd (ne (ap (bucket_of t) (same_key-eq key k same) ∙ sym at))
      | inr other ↦
          rw (other, update_ne chains (top ∷ chains b) ne)
            (index_in-update t.entry top new_entry k (chains c) (top_apart c))
    ]
  ]

  -- The key is found at the new entry, and every other key where it was.
  index-add_entry :
      (k : List ℕ)
      → index (add_entry t key val n) k ≡ (if same_key key k then some top else index t k)
  unfolding add_entry bucket_of b new_entry
  index-add_entry k =
      index-eq-index_in add_entry-KvInv k
      ∙ index_longer k (bucket_of t k) refl
      ∙ ap (λ o. if same_key key k then some top else o) (sym (index-eq-index_in v k))

  -- What the new table holds.
  pub view-add_entry :
      (k : List ℕ)
      → view (add_entry t key val n) k
        ≡ (if same_key key k then some (n, copy_value (t.entry top).val val n) else view t k)
  unfolding view add_entry
  view-add_entry k = elim (Bool-cases (same_key key k)) [
    | inl same ↦ ap (read (add_entry t key val n)) (index-add_entry k) ∙ rw same at_top
    | inr other ↦
        ap (read (add_entry t key val n)) (index-add_entry k) ∙ rw other (kept (index t k) refl)
  ]
    where
      at_top :
          read (add_entry t key val n) (some top) ≡ some (n, copy_value (t.entry top).val val n)
      at_top = ap (λ (r : Entry). some (r.val_len, r.val)) (update_self t.entry top _)

      kept : (o : Option ℕ) → index t k ≡ o → read (add_entry t key val n) o ≡ read t o
      kept none e = refl
      kept (some i) e =
          let found = index_in-some t.entry k _ i (sym (index-eq-index_in v k) ∙ e) in
          let ne : top ≢ i = λ same. ground (
            arith,
            found.1,
            top_apart (bucket_of t k),
            ap (λ j. count j (chains (bucket_of t k))) same,
          ) in
          ap (λ (r : Entry). some (r.val_len, r.val)) (update_ne t.entry _ ne)
