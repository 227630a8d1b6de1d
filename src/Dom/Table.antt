-- ===== src/Dom/Table.antt =====
-- src/teptris/dom/dom.c and dom.h: the table of a node, an array of entries in the order of their
-- insertion with an open-addressing index. The arena is taken to have room, and the entries to be
-- fewer than 2^32, so that `(uint32_t)len + 1` is the number that is written; the growth of the array of entries is left out. `x & (cap - 1)` is `x % cap`, as
-- the number of slots is 0 or a power of two.
pub mod Index
pub mod Invariant
pub mod Entries
pub mod Refines
pub mod Slots
pub mod Walks
use Prim.Native.Nat.{bit_xor}
use teptris.Base.{
  ℕ, zero, suc, ◌+◌, ◌-◌, ◌*◌, ◌%◌, Bool, true, false, ◌&&◌, List, [], ◌∷◌, ◌++◌, Option, none,
  some, Bytes, length, get_elem?, get_or, set, replicate, same_bytes, leb, ◌==◌, if◌then◌else◌,
}

-- `teptris_entry`
pub record Entry {ℓ} (A : Type ℓ) : Type ℓ where
  pub key : Bytes
  pub value : A
  pub hash : ℕ

-- The `table` part of a node: a slot holds the number of an entry plus one, or 0.
pub record Table {ℓ} (A : Type ℓ) : Type ℓ where
  pub entries : List (Entry A)
  pub index : List ℕ

pub hash_from : ℕ → Bytes → ℕ
hash_from h [] = h
hash_from h (c ∷ key) = hash_from (bit_xor h c * 1099511628211 % 18446744073709551616) key

-- FNV-1a.
unfoldable pub key_hash : Bytes → ℕ
unfolding hash_from
key_hash key = hash_from 1469598103934665603 key

-- What a walk over the index finds: an entry, or none and the empty slot at which it stopped
-- (`none` is SIZE_MAX). `lost` is a walk that met no empty slot, or a slot with no entry.
pub data Probe {ℓ} (A : Type ℓ) : Type ℓ where
  found : Entry A → Probe A
  absent : Option ℕ → Probe A
  lost : Probe A

abbrev pub next_slot : List ℕ → ℕ → ℕ
next_slot index slot = (slot + 1) % length index

-- The loop of `index_insert`.
unfoldable pub empty_slot : List ℕ → ℕ → ℕ → Option ℕ
empty_slot index zero slot = none
empty_slot index (suc fuel) slot =
    let rest = empty_slot index fuel (next_slot index slot) in
    if get_or index slot 0 == 0 then some slot else rest

abbrev pub set_at : List ℕ → Option ℕ → ℕ → List ℕ
set_at index none v = index
set_at index (some slot) v = set index slot v

unfoldable pub index_insert : List ℕ → ℕ → ℕ → List ℕ
unfolding empty_slot
index_insert index entry_idx h =
    set_at index (empty_slot index (length index) (h % length index)) (suc entry_idx)

module _ {ℓ} {A : Type ℓ} where
  abbrev pub empty : Table A
  empty = record { entries = []; index = [] }

  -- The loop of `find_h` and of `probe_slot`, which differ in the test of an entry. The fuel is the
  -- number of slots.
  unfoldable pub walk : (Entry A → Bool) → List (Entry A) → List ℕ → ℕ → ℕ → Probe A
  walk test entries index zero slot = lost
  walk test entries index (suc fuel) slot =
      let rest = walk test entries index fuel (next_slot index slot) in
      let e = get_or index slot 0 in
      if e == 0 then absent (some slot) else elim (get_elem? entries (e - 1)) [
        | none ↦ lost
        | some x ↦ if test x then found x else rest
      ]

  abbrev pub is_entry : ℕ → Bytes → Entry A → Bool
  is_entry hash key e = e.hash == hash && same_bytes e.key key

  abbrev pub is_key : Bytes → Entry A → Bool
  is_key key e = same_bytes e.key key

  unfoldable pub probe_slot : Table A → ℕ → Bytes → Probe A
  unfolding walk
  probe_slot t hash key =
      if length t.index == 0
      then absent none
      else walk (is_entry hash key) t.entries t.index (length t.index) (hash % length t.index)

  abbrev pub entry_of : Probe A → Option (Entry A)
  entry_of (found e) = some e
  entry_of (absent slot) = none
  entry_of lost = none

  unfoldable pub table_find : Table A → Bytes → Option (Entry A)
  unfolding walk key_hash
  table_find t key =
      if length t.index == 0
      then none
      else entry_of
          (walk (is_key key) t.entries t.index (length t.index) (key_hash key % length t.index))

  -- The loop of `index_rebuild`, from the entry number `i`.
  unfoldable pub insert_all : ℕ → List (Entry A) → List ℕ → List ℕ
  unfolding index_insert
  insert_all i [] index = index
  insert_all i (e ∷ es) index = insert_all (suc i) es (index_insert index i e.hash)

  unfoldable pub index_rebuild : Table A → ℕ → Table A
  unfolding insert_all
  index_rebuild t new_cap = record t { index = insert_all 0 t.entries (replicate new_cap 0) }

  abbrev pub is_crowded : Table A → Bool
  is_crowded t = leb (length t.index * 7) ((length t.entries + 1) * 10)

  -- Behind the test of the load factor. `none` asks for a fresh walk.
  unfoldable pub append_entry : Table A → Bytes → ℕ → A → Option ℕ → Table A
  unfolding index_insert
  append_entry t key hash value slot =
      let n = length t.entries in
      record {
        entries = t.entries ++ (record { key = key; value = value; hash = hash }) ∷ [];
        index = elim slot [ none ↦ index_insert t.index n hash | some s ↦ set t.index s (suc n) ];
      }

  unfoldable pub table_insert_slot : Table A → Bytes → ℕ → A → Option ℕ → Table A
  unfolding append_entry index_rebuild
  table_insert_slot t key hash value slot =
      if is_crowded t
      then append_entry (index_rebuild t (if length t.index == 0 then 16 else length t.index * 2))
          key hash value none
      else append_entry t key hash value slot

  unfoldable pub table_insert : Table A → Bytes → A → Table A
  unfolding table_insert_slot key_hash
  table_insert t key value = table_insert_slot t key (key_hash key) value none
