-- ===== src/Python/Text.antt =====
-- Slices of texts by characters, and the truth of Python's values.
use Prim.Native.String.{◌++◌ as append_text}
use domesticoracle.Prelude.{ℕ, zero, suc, String, Bool, true, false, not, ◌==◌, text_eq}
use domesticoracle.Prelude.Int.{pos}
use domesticoracle.Python.Number.{fin}
use domesticoracle.Python.Values.{Json, null, bool, num, str, arr, obj, nil, item, end, field}

-- `len(s)`
unfoldable pub text_length : String → ℕ
text_length String.[] = 0
text_length (String.◌∷◌ c s) = suc (text_length s)

-- `s[:n]`
unfoldable pub take_text : ℕ → String → String
take_text zero s = ""
take_text (suc n) String.[] = ""
take_text (suc n) (String.◌∷◌ c s) = String.◌∷◌ c (take_text n s)

-- `bool(v)`
abbrev pub truthy : Json → Bool
truthy null = false
truthy (bool b) = b
truthy (num (fin (pos zero))) = false
truthy (num x) = true
truthy (str s) = not (s == "")
truthy (arr nil) = false
truthy (arr (item v xs)) = true
truthy (obj end) = false
truthy (obj (field k v d)) = true

-- `s[n:]`
unfoldable pub drop_text : ℕ → String → String
drop_text zero s = s
drop_text (suc n) String.[] = ""
drop_text (suc n) (String.◌∷◌ c s) = drop_text n s

-- `s * n`
abbrev pub repeat_text : String → ℕ → String
repeat_text s zero = ""
repeat_text s (suc n) = append_text s (repeat_text s n)
