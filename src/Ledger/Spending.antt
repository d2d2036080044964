-- ===== src/Ledger/Spending.antt =====
-- backend/ledger.py: what was spent today, the sum that the spending limit is checked against.
use mathlib.Core.Path.{ap₂}
use mathlib.Core.List.{append_assoc, append-nil}
use domesticoracle.Prelude.{
  String, ◌≡◌, sym, ◌∙◌, ap, Bool, true, false, ◌&&◌, ◌||◌, not, Option, none, some, List, [], ◌∷◌,
  ◌++◌, any, ◌==◌, text_eq, if◌then◌else◌,
}
use domesticoracle.Python.{Python, Num, ◌<?◌}
use domesticoracle.Ledger.Entry.{Row}

-- What the sum takes from SQLite and from Python: texts, and the addition of floats, of which nothing
-- is assumed, so that its rounding and the order of the terms are the program's.
pub record Reading : Type 0 where
  -- `CAST(json_extract(args_json, '$.field') AS REAL)`; `none` where the extract is NULL
  pub extract : String → String → Option Num
  -- `COALESCE(SUM(…), 0)` of a column, as a float
  pub total : List Num → Num
  -- `x + y` of floats
  pub plus : Num → Num → Num
  -- `s.split(",")`
  pub parts : String → List String
  -- `part.partition("=")`; `none` where there is no "="
  pub partition : String → Option (String × String)

abbrev pub spent_fields : List String
spent_fields = "amount" ∷ "cost" ∷ "price" ∷ "total" ∷ []

-- What a row adds to the terms of a sum, if it is one of the rows that are summed.
abbrev pub counted : Bool → Option Num → List Num
counted true (some x) = x ∷ []
counted _ _ = []

-- `for … : total += x`
unfoldable pub add_each : (Num → Num → Num) → Num → List Num → Num
add_each plus total [] = total
add_each plus total (x ∷ xs) = add_each plus (plus total x) xs

module _ (py : Python) (rd : Reading) (action : String) (start : Num) where
  -- `action=? AND status='executed' AND ts>=?`
  abbrev pub is_executed : Row → Bool
  is_executed r =
      (r.action == action) && ((r.status == "executed") && ((start <? r.ts) || not (r.ts <? start)))

  unfoldable pub extracted : Row → List Num
  extracted r = counted (is_executed r) (rd.extract r.args_json "amount")

  -- The column that SQLite sums.
  abbrev pub amounts : List Row → List Num
  amounts [] = []
  amounts (r ∷ rows) = extracted r ++ amounts rows

  -- The first part of a summary whose key is one of the fields.
  abbrev pub summary_amount : List String → Option Num
  summary_amount [] = none
  summary_amount (part ∷ rest) =
      let later = summary_amount rest in
      elim (rd.partition part) [
        | none ↦ later
        | some (k, v) ↦
            if any (λ field. field == py.strip k) spent_fields
            then py.parse_float (py.strip v)
            else later
      ]

  unfoldable pub summarized : Row → List Num
  summarized r =
      counted (is_executed r && (r.args_json == "{}")) (summary_amount (rd.parts r.args_summary))

  -- What the loop over the summaries adds.
  abbrev pub summary_amounts : List Row → List Num
  summary_amounts [] = []
  summary_amounts (r ∷ rows) = summarized r ++ summary_amounts rows

  unfoldable pub sum_today : List Row → Num
  unfolding extracted summarized add_each
  sum_today rows = add_each rd.plus (rd.total (amounts rows)) (summary_amounts rows)

  amounts-append :
      (rows : List Row) (r : Row) → amounts (rows ++ r ∷ []) ≡ amounts rows ++ extracted r
  amounts-append [] r = append-nil (extracted r)
  amounts-append (x ∷ rows) r =
      ap (λ l. extracted x ++ l) (amounts-append rows r)
      ∙ sym (append_assoc (extracted x) (amounts rows) (extracted r))

  summary_amounts-append :
      (rows : List Row) (r : Row)
      → summary_amounts (rows ++ r ∷ []) ≡ summary_amounts rows ++ summarized r
  summary_amounts-append [] r = append-nil (summarized r)
  summary_amounts-append (x ∷ rows) r =
      ap (λ l. summarized x ++ l) (summary_amounts-append rows r)
      ∙ sym (append_assoc (summarized x) (summary_amounts rows) (summarized r))

  -- The sum of the rows with one more, by what that row is read back as.
  pub sum_today-append :
      (rows : List Row) (r : Row)
      → sum_today (rows ++ r ∷ [])
        ≡ add_each rd.plus
            (rd.total (amounts rows ++ extracted r))
            (summary_amounts rows ++ summarized r)
  unfolding sum_today
  sum_today-append rows r =
      ap₂ (λ a b. add_each rd.plus (rd.total a) b) (amounts-append rows r)
        (summary_amounts-append rows r)

  -- An entry of another action, or one that does not say executed, leaves the sum as it was.
  pub sum_today-skip :
      (rows : List Row) (r : Row)
      → is_executed r ≡ false
      → sum_today (rows ++ r ∷ []) ≡ sum_today rows
  unfolding sum_today extracted summarized
  sum_today-skip rows r h =
      let skipped : extracted r ≡ [] = ap (λ b. counted b (rd.extract r.args_json "amount")) h in
      let passed : summarized r ≡ [] =
        ap (λ b. counted (b && (r.args_json == "{}")) (summary_amount (rd.parts r.args_summary)))
          h in
      sum_today-append rows r
      ∙ ap₂ (λ a b. add_each rd.plus (rd.total a) b)
          (ap (λ l. amounts rows ++ l) skipped ∙ append-nil (amounts rows))
          (ap (λ l. summary_amounts rows ++ l) passed ∙ append-nil (summary_amounts rows))
