-- ===== src/Tests/Host.antt =====
-- A Python and a signature scheme that compute, with constants for what the examples do not look
-- at: all signatures are the same text, and so are the texts that JSON is written as.
use Prim.Native.String.{◌++◌ as append_text}
use domesticoracle.Prelude.{String, none, some, ◌==◌, text_eq}
use domesticoracle.Python.{Python, str}
use domesticoracle.Crypto.{Signatures}

abbrev pub host : Python
host = record {
  compact = λ _. "json";
  loads = λ (s : String). some (str s);
  str_of = λ _. "value";
  fixed2 = λ _. "0.00";
  repr = λ (s : String). s;
  parse_float = λ _. none;
  parse_int = λ _. none;
  lower = λ (s : String). s;
  strip = λ (s : String). s;
  sha256 = λ (s : String). append_text "#" s;
}

abbrev pub scheme : Signatures
scheme = record {
  public_of = λ (key : String). key;
  sign_with = λ _ _. "signed";
  verify_with = λ _ _ (sig : String). sig == "signed";
}
