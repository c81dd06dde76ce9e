-- ===== src/Kv/Subs.antt =====
-- Subscriptions to the keys of a table: `nos_kv_subscribe` and `nos_kv_unsubscribe`.
pub mod Notify
use gemini_nos.Base.{
  ℕ, ◌==◌, Bool, false, ◌&&◌, ◌||◌, Option, none, some, if◌then◌else◌, Status, nos_ok, nos_err,
  List, [], ◌∷◌,
}
use gemini_nos.Kv.{Sub, Table, find, set_entry}

abbrev pub same_sub : Sub → Sub → Bool
same_sub a b = (a.notify == b.notify) && (a.arg == b.arg)

unfoldable pub subscribed : Sub → List Sub → Bool
subscribed s [] = false
subscribed s (x ∷ xs) = same_sub x s || subscribed s xs

-- `nos_kv_subscribe`
pub subscribe : Table → List ℕ → Sub → Status × Table
unfolding find subscribed
subscribe t key s = elim (find t key) [
  | none ↦ (nos_err, t)
  | some (prev, i) ↦
      let e = t.entry i in
      if subscribed s e.sub_list
      then (nos_ok, t)
      else (nos_ok, set_entry t i (record e { sub_list = s ∷ e.sub_list }))
]

-- The loop of `nos_kv_unsubscribe`: the list without the first node that matches, if one does.
pub unlink : Sub → List Sub → Option (List Sub)
unlink s [] = none
unlink s (x ∷ xs) =
    if same_sub x s
    then some xs
    else elim (unlink s xs) [ none ↦ none | some rest ↦ some (x ∷ rest) ]

-- `nos_kv_unsubscribe`
pub unsubscribe : Table → List ℕ → Sub → Status × Table
unfolding find unlink
unsubscribe t key s = elim (find t key) [
  | none ↦ (nos_err, t)
  | some (prev, i) ↦ elim (unlink s (t.entry i).sub_list) [
    | none ↦ (nos_err, t)
    | some rest ↦ (nos_ok, set_entry t i (record (t.entry i) { sub_list = rest }))
  ]
]
