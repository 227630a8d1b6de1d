-- ===== src/Parse/Containers/Keeps.antt =====
-- Values, arrays and inline tables: their routines end and keep the invariant of the document.
use teptris.Base.{
  ℕ, ◌<◌, Bool, true, false, not, ◌&&◌, ◌||◌, List, [], ◌∷◌, Option, none, some, Bytes, codes,
  length, get_elem?-append_end, ltb, ◌==◌, if◌then◌else◌, ◌≡◌, inl, inr, refl, arith, Bool-cases,
}
use teptris.Common.Chartype.{is_dec, is_barekey}
use teptris.Dom.Table.{Probe}
use teptris.Dom.Document.{Scalar, text, number, boolean, moment, Node, leaf, new_node}
use teptris.Dom.Document.Links.{
  a_table, shape, Has, Inside, NodeOk, IsLinked, Grows-refl, Grows-new_node, IsLinked-new_node,
}
use teptris.Parse.Containers.{
  behind_blanks, keyval_shape, is_plain_integer, starts_dec, equals_sign, number_leaf,
  datetime_leaf, string_leaf, boolean_leaf, plain_integer, plain_leaf, value_at, value_fast,
  fast_insert_at, keyval_fast, keyval_general,
}
use teptris.Parse.Containers.Scalars.{parse_key_path-Read, parse_string-Read}
use teptris.Parse.Cursor.{adv, next_is, skip_ws}
use teptris.Parse.Cursor.Progress.{skip_ws-Read}
use teptris.Parse.Datetime.{Kind, Datetime, datetime_lookahead, parse_datetime}
use teptris.Parse.Datetime.Progress.{parse_datetime-Read}
use teptris.Parse.Floats.{Doubles, Numeric, whole}
use teptris.Parse.Floats
use teptris.Parse.Floats.Progress.{number-Read}
use teptris.Parse.Keys.{bare_key, behind_bare_key}
use teptris.Parse.Numbers.{expect_word}
use teptris.Parse.Numbers.Progress.{either, expect_word-Read, behind_dec_run-IsRest}
use teptris.Parse.Paths.{insert_dotted}
use teptris.Parse.Paths.Keeps.{Gives, Has-lt, insert_dotted-Kept}
use teptris.Parse.Result.{
  Result, ok, fail, stuck, Parser, IsRest, IsRest-refl, IsRest-cons, IsRest-trans, IsRest-drop,
  IsRest-length, Read, reads, gives_up, err_syntax, err_semantic, err_depth, nesting_too_deep,
}
use teptris.Parse.Result
use teptris.Parse.Strings.Values.{parse_string}
use teptris.Parse.Steps.{State, Action, ◌>>=◌, ◌>>◌, lift, make, probe}
use teptris.Parse.Steps.Keeps.{
  Kept, keeps, fails, overruns, Kept-map, Kept-bind, Kept-lift, Any, Probed, hit, miss,
  with_probe-Kept, insert-Kept,
}

module _ {D : Type 0} where
  pub make-Gives :
      (n : Node D) (ps : State D) (s : Bytes)
      → IsLinked none ps.nodes
      → NodeOk none (new_node ps.nodes n) (length ps.nodes) n
      → Kept none ps.nodes s (Gives (shape n)) (make n ps s)
  unfolding make
  make-Gives n ps s tree is_ok =
      keeps (IsRest-refl s) (IsLinked-new_node none ps.nodes n tree is_ok)
        (Grows-new_node ps.nodes n) (n, get_elem?-append_end ps.nodes n, refl)

  abbrev pub GivesNode : ℕ → State D → Bytes → Type 0
  GivesNode id ps rest = Inside ps.nodes id

  -- A routine of values.
  abbrev pub ValueKept : Action D ℕ → Type 0
  ValueKept m =
      (ps : State D) (s : Bytes) → IsLinked none ps.nodes → Kept none ps.nodes s GivesNode (m ps s)

  leaf-Kept :
      {A : Type 0} (m : Parser A) (f : A → Scalar D)
      → ((s : Bytes) → Read s Result.Any (m s))
      → ValueKept (lift m >>= λ x. make (leaf (f x)))
  leaf-Kept m f read ps s tree =
      Kept-bind (λ x. make (leaf (f x))) (Kept-lift ps tree (read s))
        (λ x ps' rest cursor tree' grows q.
          Kept-map (λ id ps'' r has. Has-lt ps''.nodes id (shape (leaf (f x))) has)
            (make-Gives (leaf (f x)) ps' rest tree' tt))

  if-Kept :
      (b : Bool) (x y : Action D ℕ) (ps : State D) (s : Bytes)
      → Kept none ps.nodes s GivesNode (x ps s)
      → Kept none ps.nodes s GivesNode (y ps s)
      → Kept none ps.nodes s GivesNode ((if b then x else y) ps s)
  if-Kept true x y ps s h k = h
  if-Kept false x y ps s h k = k

  pub fail_here :
      {A : Type 0} {st : Result.Status} {why : Result.Reason} {nodes : List (Node D)} {s : Bytes}
      {Q : A → State D → Bytes → Type 0}
      → Kept none nodes s Q (fail st why s)
  fail_here {s = s} = fails (IsRest-refl s)

  pub Kept-if :
      {A : Type 0} {nodes : List (Node D)} {s : Bytes} {Q : A → State D → Bytes → Type 0}
      {x y : Result.Result (A × State D)} (b : Bool)
      → Kept none nodes s Q x
      → Kept none nodes s Q y
      → Kept none nodes s Q (if b then x else y)
  Kept-if true h k = h
  Kept-if false h k = k

  -- The cursor has moved.
  abbrev pub Before : {A : Type 0} → Bytes → A → State D → Bytes → Type 0
  Before s a ps rest = length rest < length s

  pub Kept-before :
      {A : Type 0} {nodes : List (Node D)} {s : Bytes} {Q : A → State D → Bytes → Type 0}
      {r : Result.Result (A × State D)} (n : ℕ)
      → length s < n
      → Kept none nodes s Q r
      → Kept none nodes s (λ a ps rest. length rest < n) r
  Kept-before n less (keeps cursor tree grows q) =
      keeps cursor tree grows (omega (arith, IsRest-length cursor))
  Kept-before n less (fails cursor) = fails cursor
  Kept-before n less (overruns long) = overruns long

  equals_sign-Kept :
      (ps : State D) (s : Bytes)
      → IsLinked none ps.nodes
      → Kept none ps.nodes s (Before s) (equals_sign ps s)
  equals_sign-Kept ps [] tree = fail_here
  equals_sign-Kept ps (b ∷ s) tree =
      Kept-if (b == b'=') (keeps (IsRest-drop 1 (b ∷ s)) tree (Grows-refl ps.nodes) (omega arith))
        fail_here

pub behind_bare_key-IsRest : (s : Bytes) → IsRest (behind_bare_key s) s
unfolding behind_bare_key
behind_bare_key-IsRest [] = IsRest-refl []
behind_bare_key-IsRest (c ∷ s) =
    either (is_barekey c) (IsRest-cons c (behind_bare_key-IsRest s)) (IsRest-refl (c ∷ s))

behind_blanks-IsRest : (s : Bytes) → IsRest (behind_blanks s) s
behind_blanks-IsRest [] = IsRest-refl []
behind_blanks-IsRest (c ∷ s) =
    either (c == b' ' || c == b'\t') (IsRest-cons c (behind_blanks-IsRest s)) (IsRest-refl (c ∷ s))

-- The shape of the fast path has moved the cursor.
pub data Shaped (s : Bytes) : Option (Bytes × Bytes) → Type 0 where
  no_shape : Shaped s none
  has_shape :
      {key rest : Bytes} → IsRest rest s → length rest < length s → Shaped s (some (key, rest))

pub next_is-lt : (c : ℕ) (s : Bytes) → next_is c s ≡ true → length (adv 1 s) < length s
next_is-lt c [] h = ground arith
next_is-lt c (b ∷ s) h = omega arith

pub keyval_shape-Shaped : (s : Bytes) → Shaped s (keyval_shape s)
unfolding keyval_shape
keyval_shape-Shaped s =
    let s' = behind_blanks (behind_bare_key s) in
    let inside : IsRest s' s =
      IsRest-trans (behind_blanks-IsRest (behind_bare_key s)) (behind_bare_key-IsRest s) in
    let rest = behind_blanks-IsRest (adv 1 s') in
    elim (Bool-cases (ltb 0 (length (bare_key s)) && next_is b'=' s')) [
      | inl e ↦
          let sign : next_is b'=' s' ≡ true = ground arith in
          rw e (
            has_shape (IsRest-trans rest (IsRest-trans (IsRest-drop 1 s') inside))
              (omega (arith, next_is-lt b'=' s' sign, IsRest-length rest, IsRest-length inside)))
      | inr e ↦ rw e no_shape
    ]

module _ {D : Type 0} (c : Doubles D) (max_depth : ℕ) where
  number_leaf-Kept : (signed_input : Bool) → ValueKept (number_leaf c max_depth signed_input)
  unfolding number_leaf
  number_leaf-Kept signed_input =
      leaf-Kept (Floats.number c signed_input) number (number-Read c signed_input)

  datetime_leaf-Kept : ValueKept (datetime_leaf c max_depth)
  unfolding datetime_leaf
  datetime_leaf-Kept =
      leaf-Kept parse_datetime (λ (kd : Kind × Datetime). moment kd.0 kd.1) parse_datetime-Read

  string_leaf-Kept : ValueKept (string_leaf c max_depth)
  unfolding string_leaf
  string_leaf-Kept = leaf-Kept parse_string text parse_string-Read

  boolean_leaf-Kept : (b : Bool) → ValueKept (boolean_leaf c max_depth b)
  unfolding boolean_leaf
  boolean_leaf-Kept b =
      leaf-Kept (expect_word (if b then codes "true" else codes "false")) (λ _. boolean b)
        (expect_word-Read (if b then codes "true" else codes "false"))

  plain_integer-Read : (s : Bytes) → Read s Result.Any (plain_integer c max_depth s)
  unfolding plain_integer
  plain_integer-Read s = reads (behind_dec_run-IsRest s) tt

  plain_leaf-Kept : ValueKept (plain_leaf c max_depth)
  unfolding plain_leaf
  plain_leaf-Kept = leaf-Kept (plain_integer c max_depth) number plain_integer-Read

  pub value_at-Kept :
      (arr tbl : Action D ℕ)
      → ValueKept arr
      → ValueKept tbl
      → ValueKept (value_at c max_depth arr tbl)
  unfolding value_at
  value_at-Kept arr tbl arr_Kept tbl_Kept ps [] tree = fail_here
  value_at-Kept arr tbl arr_Kept tbl_Kept ps (b ∷ s) tree =
      let signed = λ (t : Bool). number_leaf c max_depth t in
      let t = b ∷ s in
      if-Kept (b == b'"' || b == b'\'') (string_leaf c max_depth) _ ps t
        (string_leaf-Kept ps t tree)
        (if-Kept (b == b'[') arr _ ps t (arr_Kept ps t tree) (
          if-Kept (b == b'{') tbl _ ps t (tbl_Kept ps t tree) (
            if-Kept (b == b't' || b == b'f') (boolean_leaf c max_depth (b == b't')) _ ps t
              (boolean_leaf-Kept (b == b't') ps t tree)
              (if-Kept (b == b'i' || b == b'n') (signed false) _ ps t
                (number_leaf-Kept false ps t tree)
                (if-Kept (b == b'+' || b == b'-') (signed true) _ ps t
                  (number_leaf-Kept true ps t tree)
                  (if-Kept (datetime_lookahead t) (datetime_leaf c max_depth) _ ps t
                    (datetime_leaf-Kept ps t tree)
                    (if-Kept (is_dec b) (signed false) _ ps t (number_leaf-Kept false ps t tree)
                      fail_here)))))))

  module _ (parse_value : Action D ℕ) (value_Kept : ValueKept parse_value) where
    -- What is left of keyval_general at each step.
    abbrev value_then : ℕ → List Bytes → Action D (Unit {0})
    value_then tbl parts = parse_value >>= insert_dotted tbl parts

    abbrev sign_then : ℕ → List Bytes → Action D (Unit {0})
    sign_then tbl parts = lift skip_ws >> value_then tbl parts

    abbrev ws_then : ℕ → List Bytes → Action D (Unit {0})
    ws_then tbl parts = equals_sign >> sign_then tbl parts

    abbrev path_then : ℕ → List Bytes → Action D (Unit {0})
    path_then tbl parts = lift skip_ws >> ws_then tbl parts

    pub value_fast-Kept : ValueKept (value_fast c max_depth parse_value)
    unfolding value_fast
    value_fast-Kept ps s tree =
        if-Kept (not (starts_dec s)) parse_value _ ps s (value_Kept ps s tree) (
          if-Kept (datetime_lookahead s) (datetime_leaf c max_depth) _ ps s
            (datetime_leaf-Kept ps s tree)
            (if-Kept (is_plain_integer s) (plain_leaf c max_depth) (number_leaf c max_depth false)
              ps s (plain_leaf-Kept ps s tree) (number_leaf-Kept false ps s tree)))

    fast_insert_at-Kept :
        (tbl : ℕ) (key : Bytes) (value : ℕ) (p : Probe ℕ) (ps : State D) (s : Bytes)
        → IsLinked none ps.nodes
        → Inside ps.nodes value
        → Probed ps tbl key p
        → Kept none ps.nodes s Any (fast_insert_at c max_depth parse_value tbl key value p ps s)
    fast_insert_at-Kept tbl key value _ ps s tree inside (hit there) = fail_here
    fast_insert_at-Kept tbl key value _ ps s tree inside (miss {slot} k t there h lacks) =
        insert-Kept tbl key value slot none ps s k t tree there h lacks inside

    pub keyval_fast-Kept :
        (tbl : ℕ) (key : Bytes) (ps : State D) (s : Bytes)
        → IsLinked none ps.nodes
        → Has ps.nodes tbl a_table
        → Kept none ps.nodes s Any (keyval_fast c max_depth parse_value tbl key ps s)
    unfolding keyval_fast
    keyval_fast-Kept tbl key ps s tree has =
        Kept-bind (λ value. probe tbl key >>= fast_insert_at c max_depth parse_value tbl key value)
          (value_fast-Kept ps s tree)
          (λ value ps' rest cursor tree' grows inside.
            with_probe-Kept (fast_insert_at c max_depth parse_value tbl key value) tbl key none ps'
              rest Any tree' (grows.keeps tbl a_table has)
              (λ p probed. fast_insert_at-Kept tbl key value p ps' rest tree' inside probed))

    pub keyval_general-Kept :
        (tbl : ℕ) (ps : State D) (s : Bytes)
        → IsLinked none ps.nodes
        → Has ps.nodes tbl a_table
        → Kept none ps.nodes s (Before s) (keyval_general c max_depth parse_value tbl ps s)
    unfolding keyval_general
    keyval_general-Kept tbl ps s tree has =
        Kept-bind (path_then tbl) (Kept-lift ps tree (parse_key_path-Read max_depth s))
          (λ parts ps₁ s₁ c₁ t₁ g₁ (e₁, many).
            Kept-bind (λ _. ws_then tbl parts) (Kept-lift ps₁ t₁ (skip_ws-Read s₁))
              (λ _ ps₂ s₂ c₂ t₂ g₂ (e₂, u₂).
                Kept-bind (λ _. sign_then tbl parts) (equals_sign-Kept ps₂ s₂ t₂)
                  (λ _ ps₃ s₃ c₃ t₃ g₃ less.
                    Kept-before (length s) (omega (arith, less, IsRest-length c₁, IsRest-length c₂))
                      (Kept-bind (λ _. value_then tbl parts) (Kept-lift ps₃ t₃ (skip_ws-Read s₃))
                        (λ _ ps₄ s₄ c₄ t₄ g₄ u₄.
                          Kept-bind (insert_dotted tbl parts) (value_Kept ps₄ s₄ t₄)
                            (λ value ps₅ s₅ c₅ t₅ g₅ inside.
                              let there = g₅.keeps tbl a_table (
                                g₄.keeps tbl a_table (
                                  g₃.keeps tbl a_table
                                    (g₂.keeps tbl a_table (g₁.keeps tbl a_table has)))) in
                              insert_dotted-Kept tbl parts value ps₅ s₅ t₅ there many inside))))))
