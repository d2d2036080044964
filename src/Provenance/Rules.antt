-- ===== src/Provenance/Rules.antt =====
-- backend/provenance.py: the registry of patterns. The regular expressions are texts; what they match
-- is the module `re`'s.
use domesticoracle.Prelude.{
  ℕ, ◌+◌, ◌-◌, String, Option, none, some, List, [], ◌∷◌, map, ltb, text_eq, if◌then◌else◌,
}
use domesticoracle.Python.{Python, text_length, take_text, drop_text}
use domesticoracle.Provenance.{Pattern, Registry}

-- `re.compile(regex, re.IGNORECASE | re.DOTALL).search(text)`: the start and the end of the first
-- match; `s.replace(old, new)`; `f"{n:,}"`.
pub record Regexes : Type 0 where
  pub search : (regex text : String) → Option (ℕ × ℕ)
  pub replace : (text old new : String) → String
  pub with_commas : ℕ → String

-- `_excerpt`
unfoldable pub excerpt : Python → Regexes → String → ℕ × ℕ → String
excerpt py rx text (first, last) =
    let start = first - 20 in
    let end = if ltb (text_length text) (last + 80) then text_length text else last + 80 in
    take_text 120 (py.strip (rx.replace (take_text (end - start) (drop_text start text)) "\n" " "))

abbrev found : Python → Regexes → String → Option (ℕ × ℕ) → Option String
found py rx text none = none
found py rx text (some span) = some (excerpt py rx text span)

abbrev pub rule_table : List (String × String × String)
rule_table =
    (
      "role_override", "ignore\\s+(?:all\\s+)?(?:previous|prior|above)\\s+instructions?",
      "Override prior instructions",
    )
    ∷ (
      "role_override", "disregard\\s+(?:all\\s+)?(?:previous|prior|above|the\\s+above)",
      "Disregard prior instructions",
    )
    ∷ (
      "role_override",
      "forget\\s+(?:all\\s+)?(?:previous|prior|earlier)\\s+(?:instructions?|context|conversation)",
      "Erase conversation context",
    )
    ∷ (
      "role_override",
      "your\\s+(?:new\\s+)?(?:instructions?|task|role|purpose|directives?)\\s+(?:is|are|now)\\s*[:\\-]",
      "Reassign agent role or task",
    )
    ∷ (
      "role_override",
      "(?:act|behave)\\s+as\\s+(?:if\\s+)?(?:you\\s+(?:are|were)\\s+)?(?:a\\s+)?(?:different|new|unrestricted|jailbroken|uncensored)\\b",
      "Change agent persona to bypass restrictions",
    )
    ∷ ("jailbreak", "\\bdan\\b.{0,30}\\bdo\\s+anything\\s+now\\b", "DAN (Do Anything Now) pattern")
    ∷ ("jailbreak", "\\bjailbreak\\b", "Jailbreak keyword")
    ∷ ("jailbreak", "\\bdeveloper\\s+mode\\b", "Developer / unrestricted mode claim")
    ∷ ("prompt_delimiter", "<\\|system\\|>", "LLM system-role delimiter")
    ∷ ("prompt_delimiter", "\\[INST\\]", "Instruction wrapper token")
    ∷ ("prompt_delimiter", "<<SYS>>", "System prompt wrapper token")
    ∷ ("prompt_delimiter", "\\[SYSTEM\\]", "SYSTEM role injection token")
    ∷ ("prompt_delimiter", "###\\s*System\\s*:", "Markdown system-section injection")
    ∷ ("prompt_delimiter", "<\\|im_start\\|>", "ChatML role delimiter")
    ∷ (
      "exfiltration",
      "(?:send|transmit|forward|email|post|upload|exfil(?:trate)?)\\b.{0,80}\\b(?:api[_\\s]?key|secret|password|token|credential|private[_\\s]?key)",
      "Exfiltrate credentials / API keys",
    )
    ∷ (
      "exfiltration", "conversation\\s+history.{0,60}(?:send|forward|external|outside|upload)",
      "Exfiltrate conversation history",
    )
    ∷ ("exfiltration", "\\bexfil\\b", "Exfiltration keyword (AFR mcp_security)")
    ∷ ("hidden_content", "<!--.{0,500}-->", "Hidden HTML comment")
    ∷ (
      "hidden_content", "\\\\u200[b-f]|\\\\u202[ef]|\\\\ufeff",
      "Unicode zero-width / RTL-override escape sequences",
    )
    ∷ []

-- `_rule`
abbrev rule : Python → Regexes → String × String × String → Pattern
rule py rx (pattern_id, regex, description) = record {
  pattern_id = pattern_id;
  description = description;
  search = λ text. found py rx text (rx.search regex text);
}

abbrev hidden_unicode : List String
hidden_unicode = "\u{200b}" ∷ "\u{200c}" ∷ "\u{200d}" ∷ "\u{202e}" ∷ "\u{feff}" ∷ []

unfoldable pub registry_of : Python → Regexes → Registry
unfolding excerpt
registry_of py rx = record {
  rules = map (rule py rx) rule_table;
  hidden_unicode = hidden_unicode;
  with_commas = rx.with_commas;
}
