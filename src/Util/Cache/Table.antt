-- ===== src/Util/Cache/Table.antt =====
-- util/cache.cc: `HandleTable`, a hash table whose buckets are linked lists of handles. A handle is an
-- address with the fields that never change; a bucket is the list that `next_hash` makes.
pub mod Chain
pub mod Bucket
pub mod Resize
pub mod Lookup
use rally_db.Prelude.{
  ℕ, zero, suc, ◌+◌, ◌-◌, ◌*◌, ◌%◌, ◌^◌, bit_and, List, [], ◌∷◌, ◌++◌, Bool, true, false, ◌&&◌,
  Option, none, some, ltb, ◌==◌, if◌then◌else◌, get_or, set, replicate,
}
use rally_db.Prelude.Bytes.{same}
use rally_db.Util.Coding.{Bytes}

pub record LruHandle : Type 0 where
  pub address : ℕ
  pub key : Bytes
  pub hash : ℕ
  pub value : ℕ
  pub charge : ℕ

abbrev pub Chain : Type 0
Chain = List LruHandle

pub record HandleTable : Type 0 where
  pub length : ℕ
  pub elems : ℕ
  pub list : List Chain

-- The end of the loop of `FindPointer`.
abbrev pub matches : Bytes → ℕ → LruHandle → Bool
matches key hash h = h.hash == hash && same key h.key

-- `*FindPointer(key, hash)` in its bucket.
unfoldable pub find : Bytes → ℕ → Chain → Option LruHandle
find key hash [] = none
find key hash (h ∷ chain) =
    let rest = find key hash chain in if matches key hash h then some h else rest

-- `*ptr = h`, with what comes behind the old entry behind `h`.
unfoldable pub put_at : LruHandle → Chain → Chain
put_at h [] = h ∷ []
put_at h (x ∷ chain) =
    let rest = put_at h chain in if matches h.key h.hash x then h ∷ chain else x ∷ rest

-- `*ptr = result->next_hash`
unfoldable pub cut_at : Bytes → ℕ → Chain → Chain
cut_at key hash [] = []
cut_at key hash (x ∷ chain) =
    let rest = cut_at key hash chain in if matches key hash x then chain else x ∷ rest

-- `hash & (length - 1)`
unfoldable pub slot : ℕ → ℕ → ℕ
slot hash length = bit_and hash (length - 1)

abbrev pub chain_of : ℕ → List Chain → ℕ → Chain
chain_of length list hash = get_or list (slot hash length) []

unfoldable pub lookup : Bytes → ℕ → HandleTable → Option LruHandle
lookup key hash t = find key hash (chain_of t.length t.list hash)

-- The loop that doubles the new length.
unfoldable pub grow : (fuel new_length elems : ℕ) → ℕ
grow zero new_length elems = new_length
grow (suc fuel) new_length elems =
    let rest = grow fuel (new_length * 2 % 2 ^ 32) elems in
    if ltb new_length elems then rest else new_length

-- A handle is put in front of its new bucket.
unfoldable pub push : ℕ → LruHandle → List Chain → List Chain
push length h list = set list (slot h.hash length) (h ∷ chain_of length list h.hash)

unfoldable pub move_chain : ℕ → Chain → List Chain → List Chain
unfolding push
move_chain length [] list = list
move_chain length (h ∷ chain) list = move_chain length chain (push length h list)

unfoldable pub move_all : ℕ → List Chain → List Chain → List Chain
unfolding move_chain
move_all length [] list = list
move_all length (chain ∷ chains) list = move_all length chains (move_chain length chain list)

-- A length that is doubled 30 times from 4 on is not below a number that fits 32 bits.
unfoldable pub resize : HandleTable → HandleTable
resize t =
    let new_length = grow 30 4 t.elems in
    record t { length = new_length; list = move_all new_length t.list (replicate new_length []) }

unfoldable pub new_table : HandleTable
new_table = resize (record { length = 0; elems = 0; list = [] })

-- `Insert`: the old entry and the table.
unfoldable pub insert : LruHandle → HandleTable → Option LruHandle × HandleTable
insert h t =
    let old = lookup h.key h.hash t in
    let list = set t.list (slot h.hash t.length) (put_at h (chain_of t.length t.list h.hash)) in
    let elems = (t.elems + 1) % 2 ^ 32 in
    elim old [
      | some x ↦ (some x, record t { list = list })
      | none ↦
          let more = record t { list = list; elems = elems } in
          (none, if ltb t.length elems then resize more else more)
    ]

unfoldable pub remove : Bytes → ℕ → HandleTable → Option LruHandle × HandleTable
remove key hash t = elim (lookup key hash t) [
  | none ↦ (none, t)
  | some x ↦ (
    some x,
    record t {
      list = set t.list (slot hash t.length) (cut_at key hash (chain_of t.length t.list hash));
      elems = (t.elems + 2 ^ 32 - 1) % 2 ^ 32;
    },
  )
]
