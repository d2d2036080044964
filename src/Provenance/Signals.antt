-- ===== src/Provenance/Signals.antt =====
-- A set of sources is flagged exactly where one of its texts gives a signal.
use domesticoracle.Prelude.{
  ℕ, String, ◌≡◌, refl, ◌∙◌, Bool, ◌||◌, List, [], ◌∷◌, ◌++◌, arith, any, ltb, not, ◌&&◌, ◌==◌,
  text_eq,
}
use Prim.Native.String.{count}
use domesticoracle.Provenance.{
  Pattern, Registry, Source, is_some, is_nonempty, hidden, scan, all_signals, scan_sources,
  content_of, source_name, is_suspicious, rule_signals, hidden_signals, size_signals,
}

-- What makes a text suspect: a pattern that matches, a hidden character, or more than 20,000
-- characters.
abbrev pub is_suspect : Registry → String → Bool
is_suspect reg text =
    not (text == "")
    && (any (λ (p : Pattern). is_some (p.search text)) reg.rules
        || (hidden reg text || ltb 20_000 (count text)))

is_nonempty-append {ℓ} :
    {A : Type ℓ} (xs ys : List A) → is_nonempty (xs ++ ys) ≡ (is_nonempty xs || is_nonempty ys)
is_nonempty-append [] ys = refl
is_nonempty-append (x ∷ xs) ys = refl

rules_found :
    (patterns : List Pattern) (text source_id : String)
    → is_nonempty (rule_signals patterns text source_id)
      ≡ any (λ (p : Pattern). is_some (p.search text)) patterns
unfolding rule_signals
rules_found [] text source_id = refl
rules_found (p ∷ patterns) text source_id = ground (arith, rules_found patterns text source_id)

scan_found :
    (reg : Registry) (text source_id : String)
    → is_nonempty (scan reg text source_id) ≡ is_suspect reg text
unfolding scan hidden_signals size_signals
scan_found reg text source_id = ground (
  arith,
  rules_found reg.rules text source_id,
  is_nonempty-append (rule_signals reg.rules text source_id)
      (hidden_signals reg text source_id ++ size_signals reg text source_id),
  is_nonempty-append (hidden_signals reg text source_id) (size_signals reg text source_id),
)

signals_found :
    (reg : Registry) (sources : List Source)
    → is_nonempty (all_signals reg sources)
      ≡ any (λ (s : Source). is_suspect reg (content_of s)) sources
unfolding all_signals
signals_found reg [] = refl
signals_found reg (s ∷ sources) =
    is_nonempty-append (scan reg (content_of s) (source_name s)) (all_signals reg sources)
    ∙ ground (arith, scan_found reg (content_of s) (source_name s), signals_found reg sources)

-- The provenance record is flagged exactly where some source's content is suspect, whatever the
-- other sources hold and in whatever order they come.
pub scan_sources-suspicious :
    (reg : Registry) (now : ℕ) (sources : List Source)
    → is_suspicious (scan_sources reg now sources)
      ≡ any (λ (s : Source). is_suspect reg (content_of s)) sources
unfolding scan_sources is_suspicious
scan_sources-suspicious reg now sources = signals_found reg sources
