-- ===== src/Examples/Documents.antt =====
-- Whole documents. A `double` is stood for by the text that ryu is given.
use teptris.Base.{
  length-replicate, replicate, false, ◌≤◌, All, arith, ℕ, List, [], ◌∷◌, ◌++◌, some, Bytes, codes,
  ◌≡◌, refl,
}
use teptris.Dom.Document.{Node}
use teptris.Common.Chartype.{is_ws, is_barekey, is_dec}
use teptris.Dom.Table.{key_hash, probe_slot, table_insert_slot}
use teptris.Parse.Datetime.{datetime_lookahead}
use teptris.Parse.Numbers.{unsigned_number, decimal}
use teptris.Parse.Containers.{value_fast, value_within}
use teptris.Parse.Containers.Fast.{value_fast-value_within}
use teptris.Parse.Document.{parser_run, start}
use teptris.Parse.Document.Lines.{Ended, parser_run-Ended}
use teptris.Parse.Floats.{Doubles, number}
use teptris.Parse.Floats.Overrun.{IsRun, fraction_text, number-overrun}
use teptris.Parse.Numbers.{digits_max}
use teptris.Parse.Result.{
  Result, ok, fail, stuck, overrun, Status, err_semantic, err_depth, Reason, duplicate_key,
  nesting_too_deep,
}
use teptris.Parse.Steps.{State}

-- Every operation keeps the text that it is given.
abbrev texts : Doubles Bytes
texts = record {
  of_nat = λ n. n ∷ [];
  pow10 = λ n. n ∷ [];
  times = λ a b. a ++ b;
  over = λ a b. a ++ b;
  negate = λ a. b'-' ∷ a;
  infinite = codes "inf";
  nan = codes "nan";
  s2d = λ s. some s;
  strtod = λ s. s;
}

-- How many nodes a document has, or the status and the reason of a failure.
data Outcome : Type 0 where
  nodes : ℕ → Outcome
  failed : Status → Reason → Outcome
  no_outcome : Outcome

abbrev count : List (Node Bytes) → ℕ
count [] = 0
count (n ∷ ns) = ℕ.suc (count ns)

abbrev outcome : Result (Unit {0} × State Bytes) → Outcome
outcome (ok (u, ps) rest) = nodes (count ps.nodes)
outcome (fail st why rest) = failed st why
outcome stuck = no_outcome
outcome overrun = no_outcome

server : Outcome
server =
    outcome
      (parser_run texts 0 (codes "a.b = 1\n[[x]]\nc = \"s\"\n[x.y]\nd = [1, 2.5, {e = true}]\n"))

-- A table under a dotted key and one behind a header.
abbrev sample : Bytes
sample = codes "a.b = 1\n[c]\nd = [2]\n"

parser_run-Ended_example : Ended sample (parser_run texts 0 sample)
parser_run-Ended_example = parser_run-Ended texts 0 sample

-- A dotted key, an array of tables and nested values: 12 nodes with the root.
server_lem : server ≡ nodes 12
unfolding server parser_run is_ws is_barekey is_dec datetime_lookahead probe_slot table_insert_slot
    key_hash unsigned_number decimal
server_lem = refl

twice_lem :
    outcome (parser_run texts 0 (codes "a = 1\na = 2\n")) ≡ failed err_semantic duplicate_key
unfolding parser_run is_ws is_barekey is_dec datetime_lookahead probe_slot table_insert_slot
    key_hash
twice_lem = refl

deep_lem : outcome (parser_run texts 2 (codes "a = [[[]]]\n")) ≡ failed err_depth nesting_too_deep
unfolding parser_run is_ws is_barekey is_dec
deep_lem = refl

-- The integer of an array, on the fast path.
value_fast-value_within_example :
    value_fast texts 3 (value_within texts 3 2) start (codes "42, 7]")
    ≡ value_within texts 3 2 start (codes "42, 7]")
value_fast-value_within_example = value_fast-value_within texts 3 2 start (codes "42, 7]")

fives-All : (n : ℕ) → All is_dec (replicate n b'5')
unfolding is_dec
fives-All ℕ.zero = tt
fives-All (ℕ.suc n) = (refl, fives-All n)

fives-IsRun : (n : ℕ) → 1 ≤ n → n ≤ digits_max → IsRun (replicate n b'5')
fives-IsRun n one le = rw (length-replicate {A = ℕ} n b'5') (fives-All n, one, le)

-- The longest run of digits that is read at once.
abbrev fives : Bytes
fives = replicate 511 b'5'

number-overrun_example : number texts false (fives ++ fraction_text fives fives) ≡ overrun
number-overrun_example =
    number-overrun texts fives fives fives (fives-IsRun 511 (omega arith) (omega arith))
      (fives-IsRun 511 (omega arith) (omega arith)) (fives-IsRun 511 (omega arith) (omega arith))
      refl (omega arith)

-- The same float as a value; the leading `k=` makes it a document.
overrun_document : parser_run texts 0 (codes "k=" ++ fives ++ fraction_text fives fives) ≡ overrun
unfolding parser_run is_ws is_barekey is_dec datetime_lookahead unsigned_number decimal
overrun_document = refl
