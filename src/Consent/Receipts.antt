-- ===== src/Consent/Receipts.antt =====
-- backend/ledger.py and backend/consent.py: what the gate writes of a purchase that was carried out is
-- read back into the sum of the day.
use domesticoracle.Prelude.{
  String, ◌≡◌, refl, ap, ◌∙◌, Bool, true, false, ◌&&◌, ◌||◌, not, Option, none, some, List, [], ◌∷◌,
  ◌++◌, arith, ◌==◌, text_eq, eq_iff,
}
use mathlib.Core.Path.{ap₂}
use mathlib.Core.List.{append-nil}
use domesticoracle.Prelude.Int.{ℤ, pos}
use domesticoracle.Python.{
  Python, Json, num, obj, Dict, end, field, get, set, dumps, Num, fin, ◌<?◌,
}
use domesticoracle.Consent.{Setup, Call, Store, record_entry, draft_of, provenance_of}
use domesticoracle.Ledger.{Row}
use domesticoracle.Ledger.{with_provenance, new_entry, append}
use domesticoracle.Ledger.Spending.{
  Reading, is_executed, summary_amount, counted, extracted, summarized, amounts, summary_amounts,
  add_each, sum_today, sum_today-append,
}

or_true : (b : Bool) → (b || true) ≡ true
or_true b = ground arith

get-set_other :
    (k j : String) (v : Json) (d : Dict) → (k == j) ≡ false → get j (set k v d) ≡ get j d
unfolding get set
get-set_other k j v end h = rw h refl
get-set_other k j v (field i w d) h =
    ground (arith, eq_iff k j, eq_iff i k, eq_iff i j, get-set_other k j v d h)

get-with_provenance :
    (prov : Option Dict) (args : Dict)
    → get "amount" (with_provenance prov args) ≡ get "amount" args
get-with_provenance none args = refl
get-with_provenance (some end) args = refl
get-with_provenance (some (field k v p)) args =
    get-set_other "_provenance" "amount" (obj (field k v p)) args refl

-- What is documented of the reader and the writer of JSON, of one dict: where its `amount` is a finite
-- number, the text that is stored of it has that number there, and is not the empty dict's.
pub record ReadsAmount (py : Python) (rd : Reading) (d : Dict) : Type 0 where
  pub extracts :
      (n : ℤ)
      → get "amount" d ≡ some (num (fin n))
      → rd.extract (dumps py (obj d)) "amount" ≡ some (fin n)
  pub written : (n : ℤ) → get "amount" d ≡ some (num (fin n)) → (dumps py (obj d) == "{}") ≡ false

module _ (py : Python) (rd : Reading) (action : String) (start : Num) where
  -- A row that is counted adds its amount, and nothing else, to the terms of the sum.
  pub sum_today-add :
      (rows : List Row) (r : Row) (n : ℤ)
      → is_executed py rd action start r ≡ true
      → rd.extract r.args_json "amount" ≡ some (fin n)
      → (r.args_json == "{}") ≡ false
      → sum_today py rd action start (rows ++ r ∷ [])
        ≡ add_each rd.plus
            (rd.total (amounts py rd action start rows ++ fin n ∷ []))
            (summary_amounts py rd action start rows)
  unfolding extracted summarized
  sum_today-add rows r n done amount full =
      let added : extracted py rd action start r ≡ fin n ∷ [] = ap₂ counted done amount in
      let skipped : summarized py rd action start r ≡ [] =
        ap₂ (λ a b. counted (a && b) (summary_amount py rd action start (rd.parts r.args_summary)))
          done full in
      sum_today-append py rd action start rows r
      ∙ ap₂ (λ a b. add_each rd.plus (rd.total a) b)
          (ap (λ l. amounts py rd action start rows ++ l) added)
          (ap (λ l. summary_amounts py rd action start rows ++ l) skipped
            ∙ append-nil (summary_amounts py rd action start rows))

-- A purchase with a finite amount that the gate records as executed, at a time that is not before the
-- day's start, is read back into the day's sum: SQLite's sum is that of the column as it was with
-- exactly this amount added at its end, and what the loop over the summaries adds stays the same. Of
-- the writer and the reader of JSON it takes that the entry's arguments are read back with their
-- amount, and are not the text of an empty object.
pub purchase_counted :
    (st : Setup) (c : Call) (decision outcome : String) (risk : ℤ) (s : Store) (n : ℤ) (start : Num)
    → ReadsAmount st.py st.reading (with_provenance (provenance_of st c) c.args)
    → c.action ≡ "make_purchase"
    → get "amount" c.args ≡ some (num (fin n))
    → (fin (pos c.logged_at) <? start) ≡ false
    → sum_today st.py st.reading "make_purchase" start
        (record_entry st c decision "executed" outcome risk s).1.ledger.rows
      ≡ add_each st.reading.plus
          (st.reading.total
            (amounts st.py st.reading "make_purchase" start s.ledger.rows ++ fin n ∷ []))
          (summary_amounts st.py st.reading "make_purchase" start s.ledger.rows)
unfolding record_entry append new_entry draft_of
purchase_counted st c decision outcome risk s n start reads bought amount late =
    let args = with_provenance (provenance_of st c) c.args in
    let stored : get "amount" args ≡ some (num (fin n)) =
      get-with_provenance (provenance_of st c) c.args ∙ amount in
    sum_today-add st.py st.reading "make_purchase" start s.ledger.rows
      (append st.py st.sg st.key c.logged_at c.anchored_at
        (draft_of st c decision "executed" outcome risk) s.ledger).0
      n
      (ap₂ (λ a b. (a == "make_purchase") && (true && ((start <? fin (pos c.logged_at)) || not b)))
          bought late
        ∙ or_true (start <? fin (pos c.logged_at)))
      (reads.extracts n stored) (reads.written n stored)
