-- ===== src/Python/Host.antt =====
-- What the program takes from Python's library and runtime: its rendering of values as text, the
-- JSON writer and reader, SHA-256, and the reading of numbers from text.
use Prim.Native.String.{◌++◌ as append_text}
use domesticoracle.Prelude.{ℕ, String, Bool, Option, none, some, List, [], ◌∷◌}
use domesticoracle.Prelude.Int.{ℤ, pos}
use domesticoracle.Python.Number.{Num, num_of, int_of}
use domesticoracle.Python.Values.{Json, bool, num, str, sort_keys}

pub record Python : Type 0 where
  -- `json.dumps(v, separators=(",", ":"))` of a value whose keys are in order
  pub compact : Json → String
  -- `json.loads`; `none` where it raises
  pub loads : String → Option Json
  -- `str(v)`, as in an f-string
  pub str_of : Json → String
  -- `f"{x:.2f}"`
  pub fixed2 : Num → String
  -- `repr(s)`, as `{s!r}`
  pub repr : String → String
  -- `float(s)` and `int(s)` of a text; `none` where they raise ValueError
  pub parse_float : String → Option Num
  pub parse_int : String → Option ℤ
  -- `s.lower()`, `s.strip()`
  pub lower : String → String
  pub strip : String → String
  -- `hashlib.sha256(s.encode("utf-8")).hexdigest()`
  pub sha256 : String → String

-- An f-string: its parts in order.
abbrev pub concat : List String → String
concat [] = ""
concat (s ∷ rest) = append_text s (concat rest)

module _ (py : Python) where
  -- `json.dumps(v, sort_keys=True, separators=(",", ":"))`
  unfoldable pub dumps : Json → String
  dumps v = py.compact (sort_keys v)

  -- `float(v)`; `none` where it raises TypeError or ValueError
  unfoldable pub float_of : Json → Option Num
  float_of (num x) = some x
  float_of (str s) = py.parse_float s
  float_of (bool b) = some (elim b [ Bool.true ↦ num_of 1 | Bool.false ↦ num_of 0 ])
  float_of _ = none

  -- `int(v)`; `none` where it raises
  unfoldable pub to_int : Json → Option ℤ
  to_int (num x) = int_of x
  to_int (str s) = py.parse_int s
  to_int (bool b) = some (elim b [ Bool.true ↦ pos 1 | Bool.false ↦ pos 0 ])
  to_int _ = none

  -- `f"{n}"` of a number that is not negative
  abbrev pub nat_text : ℕ → String
  nat_text n = py.str_of (num (num_of n))
