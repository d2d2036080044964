-- ===== src/Provenance/Listed.antt =====
-- backend/provenance.py: what the scanner reports is in the list that the owner is shown.
use Prim.Native.String.{count}
use domesticoracle.Prelude.{
  String, ◌≡◌, refl, Bool, true, false, Option, none, some, List, [], ◌∷◌, ◌++◌, map, any, All,
  All-append, arith, ◌==◌, text_eq, ltb, if◌then◌else◌, Bool-cases, inl, inr, any-append,
}
use domesticoracle.Prelude.Table.{eq_refl}
use domesticoracle.Provenance.{
  Pattern, Registry, Signal, Source, patterns, rule_signals, matched, hidden_signals, size_signals,
  hidden, scan, all_signals, content_of, source_name,
}

abbrev is_named : String → String × String → Bool
is_named id p = p.0 == id

-- The id of a signal is one that the list of patterns shows.
abbrev pub IsListed : Registry → Signal → Type 0
IsListed reg s = any (is_named s.pattern_id) (patterns reg) ≡ true

abbrev of_rules : Registry → List (String × String)
of_rules reg = map (λ (p : Pattern). (p.pattern_id, p.description)) reg.rules

module _ (reg : Registry) where
  tail_listed :
      (id : String) (front : List (String × String)) (back : List (String × String))
      → any (is_named id) back ≡ true
      → any (is_named id) (front ++ back) ≡ true
  tail_listed id front back h = ground (arith, any-append (is_named id) front back)

  front_listed :
      (id : String) (front : List (String × String)) (back : List (String × String))
      → any (is_named id) front ≡ true
      → any (is_named id) (front ++ back) ≡ true
  front_listed id front back h = ground (arith, any-append (is_named id) front back)

  abbrev NamedIn : List Pattern → Signal → Type 0
  NamedIn rules s =
      any (is_named s.pattern_id) (map (λ (p : Pattern). (p.pattern_id, p.description)) rules)
      ≡ true

  later :
      (p : Pattern) (rules : List Pattern) (ss : List Signal)
      → All (NamedIn rules) ss
      → All (NamedIn (p ∷ rules)) ss
  later p rules [] h = tt
  later p rules (s ∷ ss) h = (ground (arith, h.0), later p rules ss h.1)

  matched-named :
      (p : Pattern) (rules : List Pattern) (source_id : String) (o : Option String)
      (rest : List Signal)
      → All (NamedIn rules) rest
      → All (NamedIn (p ∷ rules)) (matched p source_id o rest)
  matched-named p rules source_id none rest h = later p rules rest h
  matched-named p rules source_id (some excerpt) rest h =
      (ground (arith, eq_refl p.pattern_id), later p rules rest h)

  rules-named :
      (rules : List Pattern) (text source_id : String)
      → All (NamedIn rules) (rule_signals rules text source_id)
  unfolding rule_signals
  rules-named [] text source_id = tt
  rules-named (p ∷ rules) text source_id =
      matched-named p rules source_id (p.search text) (rule_signals rules text source_id)
        (rules-named rules text source_id)

  NamedIn-IsListed : (ss : List Signal) → All (NamedIn reg.rules) ss → All (IsListed reg) ss
  NamedIn-IsListed [] h = tt
  NamedIn-IsListed (s ∷ ss) h =
      (front_listed s.pattern_id (of_rules reg) _ h.0, NamedIn-IsListed ss h.1)

  if-IsListed :
      (b : Bool) (ss : List Signal)
      → All (IsListed reg) ss
      → All (IsListed reg) (if b then ss else [])
  if-IsListed true ss h = h
  if-IsListed false ss h = tt

  hidden-IsListed :
      (text source_id : String) → All (IsListed reg) (hidden_signals reg text source_id)
  unfolding hidden_signals
  hidden-IsListed text source_id =
      if-IsListed (hidden reg text) _ (tail_listed "hidden_content" (of_rules reg) _ refl, tt)

  size-IsListed : (text source_id : String) → All (IsListed reg) (size_signals reg text source_id)
  unfolding size_signals
  size-IsListed text source_id =
      if-IsListed (ltb 20_000 (count text)) _
        (tail_listed "oversized_content" (of_rules reg) _ refl, tt)

  scan-IsListed : (text source_id : String) → All (IsListed reg) (scan reg text source_id)
  unfolding scan
  scan-IsListed text source_id = elim (Bool-cases (text == "")) [
    | inl e ↦ rw e tt
    | inr e ↦ rw e (
        All-append (IsListed reg) (rule_signals reg.rules text source_id) _
          (NamedIn-IsListed _ (rules-named reg.rules text source_id))
          (All-append (IsListed reg) (hidden_signals reg text source_id) _
            (hidden-IsListed text source_id) (size-IsListed text source_id)))
  ]

  -- Every signal that a scan reports, of whatever sources, has an id that the list of patterns shows.
  pub signals-IsListed : (sources : List Source) → All (IsListed reg) (all_signals reg sources)
  unfolding all_signals
  signals-IsListed [] = tt
  signals-IsListed (s ∷ sources) =
      All-append (IsListed reg) (scan reg (content_of s) (source_name s)) (all_signals reg sources)
        (scan-IsListed (content_of s) (source_name s)) (signals-IsListed sources)
