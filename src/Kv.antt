-- ===== src/Kv.antt =====
-- The key-value store of src/infra/db: a table is an array of buckets, each the head of a chain of
-- entries linked by index, and a stack of the indices that are free. `first_idx`, `entry` and
-- `free_stack` are arrays, and a value area is an array of bytes. `free_top` is the number of free
-- indices, one more than the field of the source. A key is the list of its `key_size` bytes, and
-- `memcmp` to 0 is equality of such lists. Each function runs under the lock of the key's bucket;
-- `readers` counts the read locks that `nos_kv_get_ptr` leaves behind. Callbacks and their arguments
-- are named by numbers. A walk along a chain takes fuel, `capacity + 1`. Entries lie
-- apart, as they do in a table of less than 2^32 bytes: `get_entry` takes the offset of an entry to
-- 32 bits, and entries of a larger table overlap.
pub mod Hash
pub mod Chain
pub mod Invariant
pub mod Write
pub mod Put
pub mod Read
pub mod Subs
pub mod Create
pub mod Unlink
pub mod Delete
pub mod Close
mod Tests
use gemini_nos.Base.{
  ℕ, zero, suc, ◌+◌, ◌-◌, ◌%◌, ◌^◌, Bool, true, false, ◌&&◌, ◌||◌, Option, none, some, ltb, leb,
  ◌==◌, if◌then◌else◌, update, add32, sub32, Status, nos_ok, nos_err, nos_err_busy, List, [], ◌∷◌,
  length, map,
}
use gemini_nos.Base.Scan.{scan}
use Hash.{murmurhash3_32}

abbrev pub invalid_idx : ℕ
invalid_idx = 0xFFFFFFFF

-- `nos_kv_sub_t`
pub record Sub : Type 0 where
  pub notify : ℕ
  pub arg : ℕ

-- `nos_kv_entry_t`, with the key and the value area of `data`
pub record Entry : Type 0 where
  pub next_idx : ℕ
  pub val_len : ℕ
  pub sub_list : List Sub
  pub key : List ℕ
  pub val : ℕ → ℕ

-- `struct nos_kv_table`; `readers` is the state of the locks of the buckets.
pub record Table : Type 0 where
  pub key_size : ℕ
  pub max_val_size : ℕ
  pub capacity : ℕ
  pub bucket_count : ℕ
  pub first_idx : ℕ → ℕ
  pub entry : ℕ → Entry
  pub free_stack : ℕ → ℕ
  pub free_top : ℕ
  pub used_count : ℕ
  pub readers : ℕ → ℕ

-- `memcmp(a, b, key_size) == 0`
pub same_key : List ℕ → List ℕ → Bool
same_key [] [] = true
same_key (x ∷ xs) (y ∷ ys) = (x == y) && same_key xs ys
same_key _ _ = false

-- The bucket of a key.
pub bucket_of : Table → List ℕ → ℕ
bucket_of t key = murmurhash3_32 key 0 % t.bucket_count

-- The walk along a chain from index `curr`, remembering the entry before; `none` is the end of the
-- chain. The result is the entry found and the one before it.
pub walk : (ℕ → Entry) → List ℕ → ℕ → ℕ → ℕ → Option (ℕ × ℕ)
unfolding same_key
walk entry key zero prev curr = none
walk entry key (suc fuel) prev curr =
    let rest = walk entry key fuel curr (entry curr).next_idx in
    if curr == invalid_idx
    then none
    else if same_key (entry curr).key key
    then some (prev, curr)
    else rest

-- The walk that each function makes, from the head of the key's bucket.
pub find : Table → List ℕ → Option (ℕ × ℕ)
unfolding walk bucket_of
find t key = walk t.entry key (t.capacity + 1) invalid_idx (t.first_idx (bucket_of t key))

-- `memcpy` of the first `n` bytes of a value, if one is given.
abbrev pub copy_value : (ℕ → ℕ) → Option (ℕ → ℕ) → ℕ → ℕ → ℕ
copy_value area none n = area
copy_value area (some val) n = λ i. if ltb i n then val i else area i

abbrev pub set_entry : Table → ℕ → Entry → Table
set_entry t i e = record t { entry = update t.entry i e }

-- A call of a subscriber, with the arguments that it gets. `val` is the value as the caller of
-- `nos_kv_put` gave it, `none` for `NULL`.
pub record Notice : Type 0 where
  pub sub : Sub
  pub key : List ℕ
  pub val : Option (ℕ → ℕ)
  pub val_len : ℕ

-- The branch of `nos_kv_put` for a key that is there. The subscribers are called in their order.
pub overwrite : Table → ℕ → List ℕ → Option (ℕ → ℕ) → ℕ → Table × List Notice
overwrite t i key val n =
    let e = t.entry i in
    (
      set_entry t i (record e { val = copy_value e.val val n; val_len = n }),
      map (λ s. record { sub = s; key = key; val = val; val_len = n }) e.sub_list,
    )

-- The branch for a new key, with a free entry left.
pub add_entry : Table → List ℕ → Option (ℕ → ℕ) → ℕ → Table
unfolding bucket_of
add_entry t key val n =
    let i = t.free_stack (t.free_top - 1) in
    let b = bucket_of t key in
    record t {
      entry = update t.entry i (record {
        next_idx = t.first_idx b;
        val_len = n;
        sub_list = [];
        key = key;
        val = copy_value (t.entry i).val val n;
      });
      first_idx = update t.first_idx b i;
      free_top = t.free_top - 1;
      used_count = add32 t.used_count 1;
    }

-- `nos_kv_put`, with the notifications that it makes after it has unlocked the bucket. `none` is a
-- key that is `NULL`.
pub put : Table → Option (List ℕ) → Option (ℕ → ℕ) → ℕ → Status × Table × List Notice
unfolding find overwrite add_entry
put t none val n = (nos_err, t, [])
put t (some key) val n = if ltb t.max_val_size n then (nos_err, t, []) else elim (find t key) [
  | some (prev, i) ↦ let (t', notices) = overwrite t i key val n in (nos_ok, t', notices)
  | none ↦ if t.free_top == 0 then (nos_err_busy, t, []) else (nos_ok, add_entry t key val n, [])
]

-- `nos_kv_get` into a buffer `out` of `*val_len = room` bytes: the buffer and `*val_len` after it.
pub get : Table → List ℕ → (ℕ → ℕ) → ℕ → Status × (ℕ → ℕ) × ℕ
unfolding find
get t key out room = elim (find t key) [
  | none ↦ (nos_err, out, room)
  | some (prev, i) ↦
      let e = t.entry i in
      let copy_len = if ltb room e.val_len then room else e.val_len in
      (nos_ok, copy_value out (some e.val) copy_len, e.val_len)
]

-- `nos_kv_get_ptr`: the entry whose value area is shown, its length, and the bucket that stays locked.
pub get_ptr : Table → List ℕ → Status × Table × Option (ℕ × ℕ × ℕ)
unfolding find bucket_of
get_ptr t key = elim (find t key) [
  | none ↦ (nos_err, t, none)
  | some (prev, i) ↦
      let b = bucket_of t key in
      (
        nos_ok,
        record t { readers = update t.readers b (t.readers b + 1) },
        some (i, (t.entry i).val_len, b),
      )
]

-- `nos_kv_release_ptr`; `none` is a handle that is `NULL`.
pub release_ptr : Table → Option ℕ → Table
release_ptr t none = t
release_ptr t (some b) = record t { readers = update t.readers b (t.readers b - 1) }

-- Unlinking entry `i` from its chain, behind `prev` or at the head of bucket `b`.
pub unchain : Table → ℕ → ℕ → ℕ → Table
unchain t b prev i =
    if prev == invalid_idx
    then record t { first_idx = update t.first_idx b (t.entry i).next_idx }
    else set_entry t prev (record (t.entry prev) { next_idx = (t.entry i).next_idx })

-- `nos_kv_del`
pub del : Table → List ℕ → Status × Table
unfolding find unchain bucket_of
del t key = elim (find t key) [
  | none ↦ (nos_err, t)
  | some (prev, i) ↦
      let u = unchain t (bucket_of t key) prev i in
      (
        nos_ok,
        record (set_entry u i (record (u.entry i) { sub_list = [] })) {
          free_stack = update u.free_stack u.free_top i;
          free_top = u.free_top + 1;
          used_count = sub32 u.used_count 1;
        },
      )
]
