-- ===== src/Components/Heartbeat/Watched.antt =====
-- What model_1 learns of the counter of model_2, until it stops.
use gemini_nos.Base.{
  ℕ, ◌≤◌, ◌≡◌, ◌≢◌, inl, inr, refl, ap, ◌∙◌, arith, Option, none, some, false, Status, List, [],
  ◌∷◌, ◌++◌, add32,
}
use gemini_nos.Timer.{TimerHeap}
use gemini_nos.Kv.{Sub, Table, Notice, find}
use gemini_nos.Kv.Invariant.{KvInv, view}
use gemini_nos.Kv.Subs.{subscribed, subscribe, unsubscribe}
use gemini_nos.Kv.Subs.Notify.{subscribe-ok, subscribe_notifies, unsubscribe_undoes}
use gemini_nos.Components.Stateful.{state_key, int_bytes, on_msg}
use gemini_nos.Components.Stateful.Recovery.{word-int_bytes, on_msg-notices}
use gemini_nos.Components.Heartbeat.{
  watch_state, leave_state, is_table, comp_2, start, stop, on_comp2_state_change,
}

append_assoc :
    (xs : List Notice) (x : Notice) (ys zs : List Notice)
    → (xs ++ x ∷ ys) ++ zs ≡ xs ++ x ∷ (ys ++ zs)
append_assoc [] x ys zs = refl
append_assoc (y ∷ xs) x ys zs = ap (◌∷◌ y) (append_assoc xs x ys zs)

module _ {t : Table} {chains : ℕ → List ℕ} (v : KvInv t chains)
    (held : view t (state_key comp_2) ≢ none) (now : ℕ) (slot : Option ℕ) (callback : ℕ) (sub : Sub)
    (timers : TimerHeap) where
  started :
      (o : Option ℕ)
      → (start now o callback sub timers (some t)).state_table
        ≡ some (subscribe t (state_key comp_2) sub).1
  unfolding start watch_state
  started none = refl
  started (some k) = refl

  left :
      (o : Option ℕ)
      → (stop sub (start now o callback sub timers (some t))).state_table
        ≡ some (unsubscribe (subscribe t (state_key comp_2) sub).1 (state_key comp_2) sub).1
  unfolding start stop watch_state leave_state is_table
  left none = refl
  left (some k) = refl

  -- On a state table that is in shape and holds an entry for Comp-2 and values of four bytes:
  -- after model_1 has started, a message to Comp-2 calls the callback that model_1 subscribed,
  -- with the bytes of the counter and their length, and from these that callback reads the new
  -- counter.
  pub watcher_told :
      (test : Option Table) (counter : ℕ)
      → 4 ≤ t.max_val_size
      → let w = start now slot callback sub timers (some t) in
        let r = on_msg comp_2 (
          some
            (record { state_table = w.state_table; test_table = test; local_counter = counter })) in
        ((before after : List Notice) × (r.1
            ≡ before
              ++ record {
                sub = sub;
                key = state_key comp_2;
                val = some (int_bytes (add32 counter 1));
                val_len = 4;
              }
                ∷ after))
        × (on_comp2_state_change 4 (int_bytes (add32 counter 1)) ≡ some (add32 counter 1))
  unfolding on_comp2_state_change
  watcher_told test counter wide =
      let t' = (subscribe t (state_key comp_2) sub).1 in
      let bytes = int_bytes (add32 counter 1) in
      let (others, notices) = on_msg-notices comp_2 t' test counter in
      let (ok, before, after, e) =
        subscribe_notifies v (state_key comp_2) sub bytes 4
          (subscribe-ok v (state_key comp_2) sub held) wide in
      (
        (
          before,
          after ++ others,
          ap
                (λ o.
                  (on_msg comp_2 (
                    some
                      (record { state_table = o; test_table = test; local_counter = counter }))).1)
                (started slot)
              ∙ notices
              ∙ ap (λ l. l ++ others) e
              ∙ append_assoc before
                  (record { sub = sub; key = state_key comp_2; val = some bytes; val_len = 4 })
                  after others,
        ),
        ap some (word-int_bytes (add32 counter 1) (omega arith)),
      )

  -- On a state table that is in shape and holds an entry for Comp-2 that model_1 is not subscribed
  -- to: when model_1 has started and stopped, the table is as it was before.
  pub stop_restores :
      ((p i : ℕ)
        → find t (state_key comp_2) ≡ some (p, i)
        → subscribed sub (t.entry i).sub_list ≡ false)
      → (stop sub (start now slot callback sub timers (some t))).state_table ≡ some t
  stop_restores absent = elim (unsubscribe_undoes v (state_key comp_2) sub absent) [
    | inl (ok, e) ↦ left slot ∙ ap (λ (r : Status × Table). some r.1) e
    | inr (gone, rest, more) ↦ absurd (held gone)
  ]
