-- ===== src/Kv/Delete.antt =====
-- `nos_kv_del` as the removal of a key from the map from keys to values.
use gemini_nos.Base.{
  ℕ, ◌+◌, ◌%◌, ◌≤◌, ◌<◌, ◌≡◌, ◌≢◌, ◌⊎◌, inl, inr, refl, sym, ap, ◌∙◌, subst, arith, false, Option,
  none, some, Option-cases, ◌==◌, if◌then◌else◌, update, update_ne, update_self, update_ind, List,
  [], ◌∷◌, ◌++◌, count, count-append, Bool-cases, ==_iff, ==_ne, ℕ_discrete, length, length-append,
  nos_ok, nos_err, sub32,
}
use gemini_nos.FreeStack.{entries, entries-push}
use gemini_nos.Kv.{Entry, Table, invalid_idx, same_key, find, bucket_of, unchain, del, set_entry}
use gemini_nos.Kv.Hash.{murmurhash3_32}
use gemini_nos.Kv.Chain.{
  IsChain, IsChain-relink, IsChain-update, index_in, same_key_self, same_key-eq,
}
use gemini_nos.Kv.Invariant.{
  KvInv, total, total-update, bucket_of-lt, find-eq-find_in, view, read, index, index-eq-index_in,
}
use gemini_nos.Kv.Unlink.{
  Found, find_in-Found, last_or, count-last_or, IsChain-unlink, IsChain-proper, index_in-keys,
  index_in-skip, index_in-absent,
}

module _ {t : Table} {chains : ℕ → List ℕ} (v : KvInv t chains) (key : List ℕ) (p i : ℕ)
    (f : Found t.entry key invalid_idx p i (chains (bucket_of t key))) where
  b : ℕ
  b = bucket_of t key

  abbrev rest : List ℕ
  rest = f.front ++ f.back

  abbrev pub shorter : ℕ → List ℕ
  shorter = update chains (bucket_of t key) rest

  count-split : (k : ℕ) → count k (chains b) ≡ (if i == k then 1 else 0) + count k rest
  unfolding b
  count-split k =
      ap (count k) f.split
      ∙ omega (arith, count-append k f.front (i ∷ f.back), count-append k f.front f.back)

  -- An index stands in one chain only.
  same_chain : (k c d : ℕ) → 0 < count k (chains c) → 0 < count k (chains d) → c ≡ d
  same_chain k c d h g = sym (v.homed c k h) ∙ v.homed d k g

  in_chain : 0 < count i (chains b)
  in_chain = ground (arith, count-split i)

  count-shorter :
      (c k : ℕ)
      → count k (shorter c) + (if i == k then (if b == c then 1 else 0) else 0) ≡ count k (chains c)
  unfolding b
  count-shorter c k =
      update_ind chains
        (λ c is.
          count k is + (if i == k then (if b == c then 1 else 0) else 0) ≡ count k (chains c))
        b c rest (ground (arith, count-split k)) (λ ne. ground arith)

  -- The table once the entry is out of its chain.
  u : Table
  u = unchain t b p i

  next : ℕ
  next = (t.entry i).next_idx

  first_case : f.front ≡ [] → u ≡ record t { first_idx = update t.first_idx b next }
  unfolding u unchain next
  first_case e = rw ((==_iff p invalid_idx).1 (f.before ∙ ap (last_or invalid_idx) e))

  module _ (x : ℕ) (xs : List ℕ) (e : f.front ≡ x ∷ xs) where
    before_eq : p ≡ last_or x xs
    before_eq = f.before ∙ ap (last_or invalid_idx) e

    before_in : 0 < count p (chains b)
    unfolding b
    before_in =
        subst (λ is. 0 < count p is) (sym (f.split ∙ ap (λ k. k ++ i ∷ f.back) e))
          (subst (λ k. 0 < count k (x ∷ xs ++ i ∷ f.back)) (sym before_eq)
            (count-last_or x xs (i ∷ f.back)))

    inner_case : u ≡ set_entry t p (record (t.entry p) { next_idx = next })
    unfolding u unchain next
    inner_case =
        rw (==_ne (IsChain-proper t.entry (t.first_idx b) p (chains b) (v.linked b) before_in))

    linked_inner :
        (c : ℕ)
        → IsChain
            (update t.entry p (record (t.entry p) { next_idx = next }))
            (t.first_idx c)
            (shorter c)
    unfolding b next
    linked_inner c = elim (ℕ_discrete b c) [
      | yes here ↦
          subst
            (λ d.
              IsChain (update t.entry p (record (t.entry p) { next_idx = next })) (t.first_idx d)
                (shorter d))
            here
            (rw (update_self chains b rest, e)
              (subst
                (λ k.
                  IsChain (update t.entry k (record (t.entry k) { next_idx = next }))
                    (t.first_idx b) (x ∷ xs ++ f.back))
                (sym before_eq)
                (IsChain-unlink t.entry (t.first_idx b) x i xs f.back
                  (subst (IsChain t.entry (t.first_idx b)) whole (v.linked b))
                  (λ k. subst (λ is. count k is ≤ 1) whole (omega (arith, v.once b k))))))
      | no ne ↦
          rw (update_ne chains rest ne)
            (IsChain-update t.entry p _ (t.first_idx c) (chains c) (absent ne) (v.linked c))
    ]
      where
        whole : chains b ≡ x ∷ xs ++ i ∷ f.back
        whole = f.split ∙ ap (λ k. k ++ i ∷ f.back) e

        absent : b ≢ c → count p (chains c) ≡ 0
        absent ne = elim (ℕ_discrete (count p (chains c)) 0) [
          | yes none_there ↦ none_there
          | no some_there ↦ absurd (ne (same_chain p b c before_in (omega arith)))
        ]

  linked_first : f.front ≡ [] → (c : ℕ) → IsChain t.entry (update t.first_idx b next c) (shorter c)
  unfolding b next
  linked_first e c = elim (ℕ_discrete b c) [
    | yes here ↦
        subst (λ d. IsChain t.entry (update t.first_idx b next d) (shorter d)) here
          (rw (update_self chains b rest, update_self t.first_idx b next, e)
            (subst (IsChain t.entry (t.first_idx b)) (f.split ∙ ap (λ k. k ++ i ∷ f.back) e)
              (v.linked b)).2)
    | no ne ↦ rw (update_ne chains rest ne, update_ne t.first_idx next ne) (v.linked c)
  ]

  -- What a change leaves alone: the links are those of the shorter chains, and keys and values stay.
  record IsUnchained (u : Table) : Type 0 where
    links : (c : ℕ) → IsChain u.entry (u.first_idx c) (shorter c)
    keys : (k : ℕ) → (u.entry k).key ≡ (t.entry k).key
    reads : (k : ℕ) → read u (some k) ≡ read t (some k)
    rest_of : u ≡ record t { first_idx = u.first_idx; entry = u.entry }

  unchained : IsUnchained u
  unfolding next
  unchained = go f.front refl
    where
      go : (front : List ℕ) → f.front ≡ front → IsUnchained u
      go [] e =
          rw (first_case e)
            (record { links = linked_first e; keys = λ k. refl; reads = λ k. refl; rest_of = refl })
      go (x ∷ xs) e = rw (inner_case x xs e) (record {
        links = linked_inner x xs e;
        keys = λ k.
            update_ind t.entry (λ k (r : Entry). r.key ≡ (t.entry k).key) p k _ refl (λ _. refl);
        reads = λ k.
            update_ind t.entry
              (λ k (r : Entry).
                ◌≡◌ {A = Option (ℕ × (ℕ → ℕ))} (some (r.val_len, r.val)) (read t (some k)))
              p k _ refl (λ _. refl);
        rest_of = refl;
      })

  -- The table after the deletion.
  deleted : Table
  deleted = record (set_entry u i (record (u.entry i) { sub_list = [] })) {
    free_stack = update u.free_stack u.free_top i;
    free_top = u.free_top + 1;
    used_count = sub32 u.used_count 1;
  }

  free_same : entries deleted.free_stack deleted.free_top ≡ i ∷ entries t.free_stack t.free_top
  unfolding deleted
  free_same =
      ap (λ (w : Table). entries (update w.free_stack w.free_top i) (w.free_top + 1))
        unchained.rest_of
      ∙ entries-push t.free_stack t.free_top i

  top_same : deleted.free_top ≡ t.free_top + 1
  unfolding deleted
  top_same = ap (λ (w : Table). w.free_top + 1) unchained.rest_of

  used_same : deleted.used_count ≡ sub32 t.used_count 1
  unfolding deleted
  used_same = ap (λ (w : Table). sub32 w.used_count 1) unchained.rest_of

  key_same : (k : ℕ) → (deleted.entry k).key ≡ (t.entry k).key
  unfolding deleted
  key_same k =
      update_ind u.entry (λ k (r : Entry). r.key ≡ (t.entry k).key) i k _ (unchained.keys i)
        (λ _. unchained.keys k)

  read_same : (o : Option ℕ) → read deleted o ≡ read t o
  unfolding deleted
  read_same none = refl
  read_same (some k) =
      update_ind u.entry
        (λ k (r : Entry).
          ◌≡◌ {A = Option (ℕ × (ℕ → ℕ))} (some (r.val_len, r.val)) (read t (some k)))
        i k _ (unchained.reads i) (λ _. unchained.reads k)

  bucket_same : (k : List ℕ) → bucket_of deleted k ≡ bucket_of t k
  unfolding bucket_of deleted
  bucket_same k = ap (λ (w : Table). murmurhash3_32 k 0 % w.bucket_count) unchained.rest_of

  total_shorter : total shorter t.bucket_count + 1 ≡ total chains t.bucket_count
  unfolding b
  total_shorter = omega (
    arith,
    total-update chains t.bucket_count b rest (bucket_of-lt v key),
    ap length f.split,
    length-append f.front (i ∷ f.back),
    length-append f.front f.back,
  )

  cap_same : u.capacity ≡ t.capacity
  cap_same = ap (λ (w : Table). w.capacity) unchained.rest_of

  buckets_same : u.bucket_count ≡ t.bucket_count
  buckets_same = ap (λ (w : Table). w.bucket_count) unchained.rest_of

  -- The index goes back on the free stack, and was in no other chain.
  count-freed :
      (c k : ℕ) → count k (entries deleted.free_stack deleted.free_top) + count k (shorter c) ≤ 1
  unfolding b
  count-freed c k = rw free_same (elim (ℕ_discrete i k) [
    | yes here ↦
        subst (λ k. count k (i ∷ entries t.free_stack t.free_top) + count k (shorter c) ≤ 1) here
          (elim (ℕ_discrete b c) [
            | yes own ↦ ground (arith, count-shorter c i, v.once c i)
            | no ne ↦ elim (ℕ_discrete (count i (chains c)) 0) [
              | yes none_there ↦ ground (arith, count-shorter c i, v.once b i, in_chain)
              | no some_there ↦ absurd (ne (same_chain i b c in_chain (omega arith)))
            ]
          ])
    | no ne ↦ ground (arith, count-shorter c k, v.once c k)
  ])

  still : (c k : ℕ) → 0 < count k (shorter c) → 0 < count k (chains c)
  still c k h = omega (arith, count-shorter c k)

  deleted-KvInv : KvInv deleted shorter
  unfolding deleted b
  deleted-KvInv = record {
    linked = λ c. IsChain-relink u.entry i _ (u.first_idx c) (shorter c) refl (unchained.links c);
    once = count-freed;
    proper = λ k h. elim (ℕ_discrete i k) [
      | yes here ↦
          subst (λ k. k ≢ invalid_idx) here
            (IsChain-proper t.entry (t.first_idx b) i (chains b) (v.linked b) in_chain)
      | no ne ↦ v.proper k (ground (arith, ap (count k) free_same))
    ];
    used = used_same ∙ rw buckets_same (omega (arith, total_shorter, v.used, v.all, v.fits));
    all = omega (arith, cap_same, used_same, top_same, total_shorter, v.used, v.all, v.fits);
    homed = λ c k h. bucket_same _ ∙ ap (bucket_of t) (key_same k) ∙ v.homed c k (still c k h);
    keyed = λ c j k h g e.
        v.keyed c j k (still c j h) (still c k g) (sym (key_same j) ∙ e ∙ key_same k);
    buckets = omega (arith, buckets_same, v.buckets);
    fits = omega (arith, cap_same, v.fits);
  }

  -- No entry of the shorter chain holds the key.
  key_gone : (j : ℕ) → 0 < count j rest → (t.entry j).key ≢ key
  unfolding b
  key_gone j h e =
      let there : 0 < count j (chains b) = omega (arith, count-split j) in
      let same = v.keyed b i j in_chain there (f.holds ∙ sym e) in
      ground (arith, count-split i, v.once b i, ap (λ k. count k rest) same)

  index-deleted : (k : List ℕ) → index deleted k ≡ (if same_key key k then none else index t k)
  unfolding b
  index-deleted k =
      index-eq-index_in deleted-KvInv k
      ∙ ap (λ c. index_in deleted.entry k (shorter c)) (bucket_same k)
      ∙ index_in-keys deleted.entry t.entry k (shorter (bucket_of t k)) key_same
      ∙ elim (Bool-cases (same_key key k)) [
        | inl same ↦
            let e = same_key-eq key k same in
            rw same (
              subst (λ k. index_in t.entry k (shorter (bucket_of t k)) ≡ none) e
                (rw (update_self chains b rest) (index_in-absent t.entry key rest key_gone)))
        | inr other ↦ rw other (elim (ℕ_discrete b (bucket_of t k)) [
          | yes here ↦
              ap (λ c. index_in t.entry k (shorter c)) (sym here)
              ∙ rw (update_self chains b rest) (
                  sym (
                    index_in-skip t.entry k i f.front f.back
                      (ap (λ h. same_key h k) f.holds ∙ other)))
              ∙ ap (index_in t.entry k) (sym f.split ∙ ap chains here)
              ∙ sym (index-eq-index_in v k)
          | no ne ↦ rw (update_ne chains rest ne) (sym (index-eq-index_in v k))
        ])
      ]

  view-deleted : (k : List ℕ) → view deleted k ≡ (if same_key key k then none else view t k)
  unfolding view
  view-deleted k =
      read_same (index deleted k)
      ∙ ap (read t) (index-deleted k)
      ∙ elim (Bool-cases (same_key key k)) [ inl same ↦ rw same | inr other ↦ rw other ]

  del_hit : find t key ≡ some (p, i) → del t key ≡ (nos_ok, deleted)
  unfolding del deleted u b
  del_hit hit = rw (hit, del) refl

del_miss : (t : Table) (key : List ℕ) → find t key ≡ none → del t key ≡ (nos_err, t)
unfolding del
del_miss t key miss = rw (miss, del) refl

view_miss : (t : Table) (key : List ℕ) → find t key ≡ none → view t key ≡ none
unfolding view index
view_miss t key miss = rw miss refl

view_hit : (t : Table) (key : List ℕ) (p i : ℕ) → find t key ≡ some (p, i) → view t key ≢ none
unfolding view index
view_hit t key p i hit = rw hit (λ e. absurd (cc))

-- The outcome of a deletion: the table is in shape, the key is gone, and every other key is as it was.
pub record IsDeletion (t t' : Table) (key : List ℕ) : Type 0 where
  pub chains : ℕ → List ℕ
  pub shape : KvInv t' chains
  pub at_key : view t' key ≡ none
  pub elsewhere : (k : List ℕ) → same_key key k ≡ false → view t' k ≡ view t k
  pub freed : t'.free_top ≡ t.free_top + 1

-- On a table in shape, `nos_kv_del` removes a key that is there from the map from keys to values, and
-- no other, keeps the table in shape, and frees one entry; on a key that is not there it reports an
-- error and changes nothing.
pub del_refines :
    {t : Table} {chains : ℕ → List ℕ} (v : KvInv t chains) (key : List ℕ)
    → ((view t key ≡ none) × (del t key ≡ (nos_err, t)))
      ⊎ ((view t key ≢ none) × ((del t key).0 ≡ nos_ok) × IsDeletion t (del t key).1 key)
del_refines {t} v key = elim (Option-cases (find t key)) [
  | inl miss ↦ inl (view_miss t key miss, del_miss t key miss)
  | inr ((p, i), hit) ↦
      let f = find_in-Found t.entry key invalid_idx _ p i (sym (find-eq-find_in v key) ∙ hit) in
      inr (
        view_hit t key p i hit,
        ap (λ r. r.0) (del_hit v key p i f hit),
        subst (λ r. IsDeletion t r.1 key) (sym (del_hit v key p i f hit))
            (record {
              chains = shorter v key p i f;
              shape = deleted-KvInv v key p i f;
              at_key = view-deleted v key p i f key ∙ rw (same_key_self key) refl;
              elsewhere = λ k ne. view-deleted v key p i f k ∙ rw ne refl;
              freed = top_same v key p i f;
            }),
      )
]
