-- ===== src/Kv/Subs/Notify.antt =====
-- Whom a write of a key notifies, after subscriptions to it.
use gemini_nos.Base.{
  ℕ, ◌≤◌, ◌≡◌, ◌≢◌, ◌⊎◌, ◌==◌, ==_iff, inl, inr, refl, ap, ap₂, ◌∙◌, arith, true, false, Option,
  none, some, ltb, update, update_self, fun_ext, List, [], ◌∷◌, ◌++◌, map, Option-cases, Bool-cases,
  nos_ok, nos_err,
}
use gemini_nos.Kv.{Sub, Entry, Table, Notice, find, set_entry, put, overwrite}
use gemini_nos.Kv.Chain.{second}
use gemini_nos.Kv.Invariant.{KvInv, view, index}
use gemini_nos.Kv.Write.{index-set_entry}
use gemini_nos.Kv.Subs.{same_sub, subscribed, subscribe, unlink, unsubscribe}

same_sub-eq : (a b : Sub) → same_sub a b ≡ true → a ≡ b
same_sub-eq a b e =
    ap₂ (λ x y. record { notify = x; arg = y }) (ground (arith, e)) (ground (arith, e))

same_sub_self : (a : Sub) → same_sub a a ≡ true
same_sub_self a = ground arith

-- Where a subscriber stands in a list.
record IsAmong (s : Sub) (list : List Sub) : Type 0 where
  before : List Sub
  after : List Sub
  split : list ≡ before ++ s ∷ after

subscribed-IsAmong : (s : Sub) (list : List Sub) → subscribed s list ≡ true → IsAmong s list
unfolding subscribed
subscribed-IsAmong s [] e = absurd (ground (arith, e))
subscribed-IsAmong s (x ∷ list) e = elim (Bool-cases (same_sub x s)) [
  | inl hit ↦ record { before = []; after = list; split = ap (λ y. y ∷ list) (same_sub-eq x s hit) }
  | inr miss ↦
      let m = subscribed-IsAmong s list (ground (arith, e, miss)) in
      record { before = x ∷ m.before; after = m.after; split = ap (◌∷◌ x) m.split }
]

second-some : (o : Option (ℕ × ℕ)) (i : ℕ) → second o ≡ some i → (p : ℕ) × (o ≡ some (p, i))
second-some none i e = absurd (ground (arith, e))
second-some (some (p, j)) i e = (p, ap (λ k. some (p, k)) (ground (arith, e)))

module _ {t : Table} {chains : ℕ → List ℕ} (v : KvInv t chains) (key : List ℕ) where
  -- An entry that keeps its link and its key is found where it was.
  found_again :
      (p i : ℕ) (e : Entry)
      → find t key ≡ some (p, i)
      → e.next_idx ≡ (t.entry i).next_idx
      → e.key ≡ (t.entry i).key
      → (q : ℕ) × (find (set_entry t i e) key ≡ some (q, i))
  unfolding index
  found_again p i e hit link same =
      second-some (find (set_entry t i e) key) i
        (index-set_entry v i e link same key ∙ ap second hit)

  -- A write of the key notifies every subscriber of its entry.
  put-notices :
      (u : Table) (q i : ℕ) (s : Sub) (bytes : ℕ → ℕ) (n : ℕ)
      → find u key ≡ some (q, i)
      → n ≤ u.max_val_size
      → IsAmong s (u.entry i).sub_list
      → let r = put u (some key) (some bytes) n in
        (r.0 ≡ nos_ok)
        × (before after : List Notice) × (r.2
            ≡ before ++ record { sub = s; key = key; val = some bytes; val_len = n } ∷ after)
  unfolding put overwrite
  put-notices u q i s bytes n hit fits m =
      rw (short, hit, put)
        (refl, map told m.before, map told m.after, ap (map told) m.split ∙ map-append m.before)
    where
      short : ltb u.max_val_size n ≡ false
      short = ground arith

      told : Sub → Notice
      told x = record { sub = x; key = key; val = some bytes; val_len = n }

      map-append :
          (xs : List Sub) → map told (xs ++ s ∷ m.after) ≡ map told xs ++ told s ∷ map told m.after
      map-append [] = refl
      map-append (x ∷ xs) = ap (◌∷◌ (told x)) (map-append xs)

  module _ (s : Sub) where
    entered : (i : ℕ) → Entry
    entered i = record (t.entry i) { sub_list = s ∷ (t.entry i).sub_list }

    pub subscribe-ok : view t key ≢ none → (subscribe t key s).0 ≡ nos_ok
    unfolding subscribe view index
    subscribe-ok held = elim (Option-cases (find t key)) [
      | inl miss ↦ absurd (held (rw miss refl))
      | inr ((p, i), hit) ↦ elim (Bool-cases (subscribed s (t.entry i).sub_list)) [
        | inl there ↦ rw (hit, there, subscribe) refl
        | inr absent ↦ rw (hit, absent, subscribe) refl
      ]
    ]

    restored : (i j : ℕ) → update (update t.entry i (entered i)) i (t.entry i) j ≡ t.entry j
    restored i j = elim (Bool-cases (i == j)) [
      | inl hit ↦ rw hit (ap t.entry ((==_iff i j).0 hit))
      | inr miss ↦ rw miss refl
    ]

    left :
        (q i : ℕ)
        → find (set_entry t i (entered i)) key ≡ some (q, i)
        → unsubscribe (set_entry t i (entered i)) key s ≡ (nos_ok, t)
    unfolding unsubscribe unlink entered
    left q i again =
        rw (again, unsubscribe, update_self t.entry i (entered i), same_sub_self s)
          (ap
              (λ (e : Entry). (
                nos_ok,
                set_entry (set_entry t i (entered i)) i
                    (record e { sub_list = (t.entry i).sub_list }),
              ))
              (update_self t.entry i (entered i))
            ∙ ap (λ a. (nos_ok, record t { entry = a })) (fun_ext (restored i)))

    -- On a table in shape: after a subscription that succeeds, every write of the key that is not
    -- too long succeeds and calls the subscriber, with the key, the new value and its length.
    pub subscribe_notifies :
        (bytes : ℕ → ℕ) (n : ℕ)
        → (subscribe t key s).0 ≡ nos_ok
        → n ≤ t.max_val_size
        → let r = put (subscribe t key s).1 (some key) (some bytes) n in
          (r.0 ≡ nos_ok)
          × (before after : List Notice) × (r.2
              ≡ before ++ record { sub = s; key = key; val = some bytes; val_len = n } ∷ after)
    unfolding subscribe entered
    subscribe_notifies bytes n ok fits = elim (Option-cases (find t key)) [
      | inl miss ↦ absurd (ground (arith, ok, miss))
      | inr ((p, i), hit) ↦ elim (Bool-cases (subscribed s (t.entry i).sub_list)) [
        | inl there ↦
            rw (hit, there, subscribe)
              (put-notices t p i s bytes n hit fits (subscribed-IsAmong s _ there))
        | inr absent ↦
            let (q, again) = found_again p i (entered i) hit refl refl in
            rw (hit, absent, subscribe)
              (put-notices (set_entry t i (entered i)) q i s bytes n again fits (record {
                before = [];
                after = (t.entry i).sub_list;
                split = ap (λ (e : Entry). e.sub_list) (update_self t.entry i (entered i));
              }))
      ]
    ]

    -- On a table in shape, for a subscriber that does not stand at the key: a subscription and its
    -- end both succeed and leave the table as it was, or the table does not hold the key, and both
    -- fail.
    pub unsubscribe_undoes :
        ((p i : ℕ) → find t key ≡ some (p, i) → subscribed s (t.entry i).sub_list ≡ false)
        → (((subscribe t key s).0 ≡ nos_ok)
            × (unsubscribe (subscribe t key s).1 key s ≡ (nos_ok, t)))
          ⊎ ((view t key ≡ none)
              × (subscribe t key s ≡ (nos_err, t))
              × (unsubscribe t key s ≡ (nos_err, t)))
    unfolding subscribe unsubscribe unlink entered view index
    unsubscribe_undoes absent = elim (Option-cases (find t key)) [
      | inl miss ↦ inr (rw miss refl, rw (miss, subscribe) refl, rw (miss, unsubscribe) refl)
      | inr ((p, i), hit) ↦
          let (q, again) = found_again p i (entered i) hit refl refl in
          let new = absent p i hit in rw (hit, new, subscribe) (inl (refl, left q i again))
    ]
