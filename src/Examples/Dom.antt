-- ===== src/Examples/Dom.antt =====
-- Tables of a document.
use teptris.Base.{ℕ, [], ◌∷◌, ◌++◌, none, some, Bytes, codes, ◌≡◌, refl, if◌then◌else◌, same_bytes}
use teptris.Dom.Table.{
  Table, empty, key_hash, table_find, probe_slot, table_insert, table_insert_slot,
}
use teptris.Dom.Table.Entries.{find_entry}
use teptris.Dom.Table.Invariant.{IsWell, empty-IsWell}
use teptris.Dom.Table.Refines.{
  table_find_lem, table_insert-IsWell, table_find-table_insert, probe_slot-table_insert_slot,
}

abbrev port : Bytes
port = codes "port"

abbrev host : Bytes
host = codes "host"

-- `port` and then `host`.
abbrev one_key : Table ℕ
one_key = table_insert empty port 80

one_key-IsWell : IsWell one_key
unfolding table_find
one_key-IsWell = let (w, entries) = table_insert-IsWell empty port 80 empty-IsWell refl in w

host_new : table_find one_key host ≡ none
unfolding table_insert table_find
host_new = refl

table_insert-IsWell_example :
    IsWell (table_insert one_key host 7)
    × ((table_insert one_key host 7).entries
        ≡ one_key.entries ++ (record { key = host; value = 7; hash = key_hash host }) ∷ [])
table_insert-IsWell_example = table_insert-IsWell one_key host 7 one_key-IsWell host_new

table_find_lem_example : table_find one_key port ≡ find_entry one_key.entries port
table_find_lem_example = table_find_lem one_key port one_key-IsWell

table_find-table_insert_example : table_find (table_insert one_key host 7) port ≡ (
    if same_bytes host port
    then some (record { key = host; value = 7; hash = key_hash host })
    else table_find one_key port)
table_find-table_insert_example =
    table_find-table_insert one_key host port 7 one_key-IsWell host_new

-- `host` has the slot 13 of 16.
probe_slot-table_insert_slot_example :
    table_insert_slot one_key host (key_hash host) 7 (some 13) ≡ table_insert one_key host 7
unfolding table_insert probe_slot
probe_slot-table_insert_slot_example =
    probe_slot-table_insert_slot one_key host 7 (some 13) one_key-IsWell refl
