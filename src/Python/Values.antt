-- ===== src/Python/Values.antt =====
-- The values that `json` reads and writes, and Python's dict with string keys in insertion order.
use Prim.Native.Nat.{Ordering}
use Prim.Native.String.{compare}
use domesticoracle.Prelude.{
  String, Bool, true, false, Option, none, some, List, [], ◌∷◌, ◌==◌, text_eq, text_discrete, ℕ,
  suc, if◌then◌else◌,
}
use native.Mathlib.Decide.{ℕ_discrete}
use domesticoracle.Python.Number.{Num}

mutual
  pub data Json : Type 0 where
    null : Json
    bool : Bool → Json
    num : Num → Json
    str : String → Json
    arr : Items → Json
    obj : Dict → Json

  pub data Items : Type 0 where
    nil : Items
    item : Json → Items → Items

  pub data Dict : Type 0 where
    end : Dict
    field : String → Json → Dict → Dict

-- `d.get(k)`; a key that is absent gives `none`, which Python's `.get` reads as None.
unfoldable pub get : String → Dict → Option Json
get k end = none
get k (field j v d) = if j == k then some v else get k d

-- `k in d`
abbrev pub has : String → Dict → Bool
has k d = elim (get k d) [ none ↦ false | some _ ↦ true ]

-- `d.get(k)` with Python's None for an absent key.
abbrev pub get_json : String → Dict → Json
get_json k d = elim (get k d) [ none ↦ null | some v ↦ v ]

-- `d.get(k, default)`
abbrev pub get_default : String → Json → Dict → Json
get_default k x d = elim (get k d) [ none ↦ x | some v ↦ v ]

-- `d[k] = v`
unfoldable pub set : String → Json → Dict → Dict
set k v end = field k v end
set k v (field j w d) = if j == k then field j v d else field j w (set k v d)

-- The pairs of `d.items()`.
abbrev pub items : Dict → List (String × Json)
items end = []
items (field k v d) = (k, v) ∷ items d

abbrev pub dict_of : List (String × Json) → Dict
dict_of [] = end
dict_of ((k, v) ∷ rest) = field k v (dict_of rest)

abbrev pub items_of : List Json → Items
items_of [] = nil
items_of (v ∷ rest) = item v (items_of rest)

abbrev pub is_lt_text : String → String → Bool
is_lt_text s t = elim (compare s t) [ Ordering.lt ↦ true | _ ↦ false ]

-- Into a dict whose keys are sorted, before the first key that is greater.
abbrev pub insert_field : String → Json → Dict → Dict
insert_field k v end = field k v end
insert_field k v (field j w d) =
    if is_lt_text k j then field k v (field j w d) else field j w (insert_field k v d)

-- `sort_keys=True` of `json.dumps`, at every depth.
unfoldable mutual
  pub sort_keys : Json → Json
  sort_keys (arr xs) = arr (sort_items xs)
  sort_keys (obj d) = obj (sort_dict d)
  sort_keys v = v

  pub sort_items : Items → Items
  sort_items nil = nil
  sort_items (item v xs) = item (sort_keys v) (sort_items xs)

  pub sort_dict : Dict → Dict
  sort_dict end = end
  sort_dict (field k v d) = insert_field k (sort_keys v) (sort_dict d)

-- The number of keys, `len(d)`.
abbrev pub dict_size : Dict → ℕ
dict_size end = 0
dict_size (field k v d) = suc (dict_size d)

pub Json-discrete : Discrete Json
Json-discrete = hlevel (ℕ_discrete, text_discrete)
