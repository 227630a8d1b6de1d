-- ===== src/Dom/Document.antt =====
-- src/teptris/dom/dom.h and dom.c: the nodes of a document. A node is known by its number, in the order
-- in which nodes are made, where the code has its address; the root is the first.
pub mod Links
use teptris.Base.{
  ℕ, zero, suc, ◌+◌, ◌-◌, Bool, List, [], ◌∷◌, ◌++◌, Option, none, some, Bytes, length, get_elem?,
  set,
}
use teptris.Dom.Table.{Table, empty}
use teptris.Parse.Datetime.{Datetime, Kind}
use teptris.Parse.Floats.{Numeric}

-- The flags TBL_*. A table has exactly one of them.
pub data TableKind : Type 0 where
  tbl_explicit tbl_implicit tbl_dotted tbl_inline : TableKind

-- The nodes that hold no others.
pub data Scalar (D : Type 0) : Type 0 where
  text : Bytes → Scalar D
  number : Numeric D → Scalar D
  boolean : Bool → Scalar D
  moment : Kind → Datetime → Scalar D

-- `teptris_node`. The flag of an array is ARR_AOT.
pub data Node (D : Type 0) : Type 0 where
  table : TableKind → Table ℕ → Node D
  array : Bool → List ℕ → Node D
  leaf : Scalar D → Node D

-- `items[len - 1]`
abbrev pub last_item : List ℕ → Option ℕ
last_item items = get_elem? items (length items - 1)

module _ {D : Type 0} where
  -- `teptris_dom_new_node` and its like; the number of the new node is `length nodes`.
  abbrev pub new_node : List (Node D) → Node D → List (Node D)
  new_node nodes n = nodes ++ n ∷ []

  -- The tables and the arrays among the nodes.
  abbrev pub as_table : Option (Node D) → Option (TableKind × Table ℕ)
  as_table none = none
  as_table (some (table k t)) = some (k, t)
  as_table (some (array a items)) = none
  as_table (some (leaf v)) = none

  abbrev pub as_array : Option (Node D) → Option (Bool × List ℕ)
  as_array none = none
  as_array (some (table k t)) = none
  as_array (some (array a items)) = some (a, items)
  as_array (some (leaf v)) = none
