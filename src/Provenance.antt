-- ===== src/Provenance.antt =====
-- backend/provenance.py: scanning content sources for injection signals. The registry of compiled
-- regular expressions is a parameter: a rule is its id, its description and its search, which
-- gives where in the text it matches.
pub mod Signals
pub mod Rules
pub mod Listed
use text.Mathlib.Text.{find?}
use Prim.Native.String.{count}
use domesticoracle.Prelude.{
  ℕ, ◌*◌, String, Bool, true, false, Option, none, some, List, [], ◌∷◌, ◌++◌, map, any, ltb, ◌==◌,
  text_eq, if◌then◌else◌,
}
use domesticoracle.Prelude.Int.{pos}
use domesticoracle.Python.{
  Json, str, bool, num, arr, obj, Dict, dict_of, items_of, fin, num_of, unit, concat, get, get_json,
}

-- `_rule`: the id, the description, and `pattern.search` with the excerpt round its match.
pub record Pattern : Type 0 where
  pub pattern_id : String
  pub description : String
  pub search : String → Option String

pub record Registry : Type 0 where
  pub rules : List Pattern
  pub hidden_unicode : List String
  -- `f"{n:,}"`
  pub with_commas : ℕ → String

pub record Signal : Type 0 where
  pub pattern_id : String
  pub description : String
  pub excerpt : String
  pub source_id : String

-- A content source; `content` may be missing.
pub record Source : Type 0 where
  pub type : String
  pub id : String
  pub content : Option String

abbrev pub is_some {ℓ} : {A : Type ℓ} → Option A → Bool
is_some none = false
is_some (some _) = true

-- A rule that matches is a signal in front of the others'.
abbrev pub matched : Pattern → String → Option String → List Signal → List Signal
matched p source_id none rest = rest
matched p source_id (some excerpt) rest =
    record {
      pattern_id = p.pattern_id;
      description = p.description;
      excerpt = excerpt;
      source_id = source_id;
    }
    ∷ rest

rule_signals : List Pattern → String → String → List Signal
rule_signals [] text source_id = []
rule_signals (p ∷ patterns) text source_id =
    matched p source_id (p.search text) (rule_signals patterns text source_id)

abbrev pub hidden : Registry → String → Bool
hidden reg text = any (λ ch. is_some (find? text ch)) reg.hidden_unicode

hidden_signals : Registry → String → String → List Signal
hidden_signals reg text source_id =
    if hidden reg text
    then record {
      pattern_id = "hidden_content";
      description = "Hidden unicode chars (zero-width / RTL-override / BOM)";
      excerpt = "(non-printable chars present)";
      source_id = source_id;
    }
      ∷ []
    else []

size_signals : Registry → String → String → List Signal
size_signals reg text source_id =
    if ltb 20_000 (count text)
    then record {
      pattern_id = "oversized_content";
      description = concat (
          "Payload is "
          ∷ reg.with_commas (count text)
          ∷ " chars (>20 KB) — may hide instructions"
          ∷ []);
      excerpt = concat ("(" ∷ reg.with_commas (count text) ∷ " chars total)" ∷ []);
      source_id = source_id;
    }
      ∷ []
    else []

-- The signals of one text, in the order of the registry; `suspicious` is that there are any.
unfoldable pub scan : Registry → String → String → List Signal
unfolding rule_signals hidden_signals size_signals
scan reg text source_id =
    if text == ""
    then []
    else rule_signals reg.rules text source_id
      ++ (hidden_signals reg text source_id ++ size_signals reg text source_id)

abbrev pub content_of : Source → String
content_of s = elim s.content [ none ↦ "" | some c ↦ c ]

abbrev pub source_name : Source → String
source_name s = if s.id == "" then s.type else s.id

unfoldable pub all_signals : Registry → List Source → List Signal
unfolding scan
all_signals reg [] = []
all_signals reg (s ∷ sources) = scan reg (content_of s) (source_name s) ++ all_signals reg sources

abbrev signal_json : Signal → Json
signal_json s = obj (
    dict_of (
      ("pattern_id", str s.pattern_id)
      ∷ ("description", str s.description)
      ∷ ("excerpt", str s.excerpt)
      ∷ ("source_id", str s.source_id)
      ∷ []))

abbrev source_json : Source → Json
source_json s = obj (dict_of (("type", str s.type) ∷ ("id", str s.id) ∷ []))

abbrev pub is_nonempty {ℓ} : {A : Type ℓ} → List A → Bool
is_nonempty [] = false
is_nonempty (_ ∷ _) = true

unfoldable pub scan_sources : Registry → ℕ → List Source → Dict
unfolding all_signals
scan_sources reg now sources =
    let signals = all_signals reg sources in
    dict_of (
      ("sources", arr (items_of (map source_json sources)))
      ∷ ("signals", arr (items_of (map signal_json signals)))
      ∷ ("suspicious", bool (is_nonempty signals))
      ∷ ("scanned_at", num (fin (pos now)))
      ∷ ("scanner_version", num (num_of 1))
      ∷ [])

abbrev is_true : Json → Bool
is_true (bool b) = b
is_true _ = false

-- `prov.get("suspicious", False)` of a record made by `scan_sources`.
unfoldable pub is_suspicious : Dict → Bool
unfolding get
is_suspicious prov = is_true (get_json "suspicious" prov)

-- The registry as the owner is shown it: each rule's id and description, and the two checks that are
-- not patterns.
abbrev pub patterns : Registry → List (String × String)
patterns reg =
    map (λ (p : Pattern). (p.pattern_id, p.description)) reg.rules
    ++ ("hidden_content", "Hidden unicode chars (zero-width / RTL-override / BOM)")
      ∷ ("oversized_content", "Payload >20 KB — may hide injected instructions")
      ∷ []
