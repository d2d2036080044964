-- ===== src/Policy/Store.antt =====
-- backend/policy.py: the stored rules with their cache, and the mode. A rule's params are stored as
-- JSON text and read back; here they are kept as the dict.
use domesticoracle.Prelude.{
  ℕ, ◌+◌, String, Bool, ◌||◌, Option, none, some, List, [], ◌∷◌, ◌++◌, keep, length, ltb, not, ◌==◌,
  text_eq, nat_eq, if◌then◌else◌,
}
use domesticoracle.Python.{Python, Dict, end, field, num, str, num_of}
use domesticoracle.Policy.Rules.{Rule, Decision, Request, local_evaluate}

-- The table with the last id given out, the setting policy_mode, and the cache in memory.
pub record Policies : Type 0 where
  pub rows : List Rule
  pub last_id : ℕ
  pub mode : Option String
  pub cache : Option (List Rule)

abbrev pub enforced : String
enforced = "enforced"

abbrev pub is_mode : String → Bool
is_mode mode = (mode == enforced) || ((mode == "audit_only") || (mode == "permissive"))

unfoldable pub get_mode : Policies → String
get_mode s = elim s.mode [ none ↦ enforced | some mode ↦ mode ]

-- `none` is the ValueError of an unknown mode.
unfoldable pub set_mode : String → Policies → Option Policies
set_mode mode s = if not (is_mode mode) then none else some (record s { mode = some mode })

unfoldable pub cached_policies : Policies → List Rule × Policies
cached_policies s = elim s.cache [
  | none ↦ (s.rows, record s { cache = some s.rows })
  | some rules ↦ (rules, s)
]

abbrev pub is_rule_type : String → Bool
is_rule_type t =
    (t == "spend_limit")
    || ((t == "time_window") || ((t == "action_deny") || (t == "recipient_block")))

insert_rule : ℕ → String → Dict → String → String → Policies → Policies
insert_rule now rule_type params label source s = record s {
  rows =
      s.rows
      ++ record {
        id = s.last_id + 1;
        created = now;
        rule_type = rule_type;
        params = params;
        source = source;
        label = label;
      }
        ∷ [];
  last_id = s.last_id + 1;
}

-- The new rule's id; `none` is the ValueError of an unknown type.
unfoldable pub add_policy : ℕ → String → Dict → String → String → Policies → Option (ℕ × Policies)
unfolding insert_rule
add_policy now rule_type params label source s =
    if not (is_rule_type rule_type)
    then none
    else some
        (s.last_id + 1, record (insert_rule now rule_type params label source s) { cache = none })

unfoldable pub delete_policy : ℕ → Policies → Bool × Policies
delete_policy policy_id s =
    let rows = keep (λ (r : Rule). not (r.id == policy_id)) s.rows in
    (ltb (length rows) (length s.rows), record s { rows = rows; cache = none })

-- The rules that a new database starts with, if it has none.
unfoldable pub seed_defaults : ℕ → Policies → Policies
unfolding insert_rule
seed_defaults now s = elim s.rows [
  | [] ↦
      insert_rule now "recipient_block" (field "recipient" (str "all_contacts") end)
        "Never message my contacts as me without approval" "default"
        (insert_rule now "time_window"
          (field "start_hour" (num (num_of 23)) (field "end_hour" (num (num_of 6)) end))
          "Hold device and purchase actions between 11pm and 6am" "default"
          (insert_rule now "spend_limit" (field "max_amount" (num (num_of 50)) end)
            "Hold any purchase over $50 for my approval" "default" s))
  | _ ∷ _ ↦ s
]

unfoldable pub init_db : ℕ → Policies → Policies
unfolding seed_defaults
init_db now s =
    seed_defaults now
      (record s { mode = elim s.mode [ none ↦ some enforced | some mode ↦ some mode ] })

-- An evaluation reads the rules through the cache.
unfoldable pub evaluate : Python → Request → Policies → Option (Decision × String) × Policies
unfolding cached_policies local_evaluate
evaluate py r s = let (rules, s') = cached_policies s in (local_evaluate py r rules, s')

-- ORDER BY id, with the params read back from their JSON text.
abbrev pub list_policies : Policies → List Rule
list_policies s = s.rows
