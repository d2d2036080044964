-- ===== src/Tests/Mailing.antt =====
-- The mail client's proof of work and token at concrete inputs.
use domesticoracle.Prelude.{ℕ, String, ◌≡◌, refl, some, List, [], ◌∷◌, arith, text_eq}
use domesticoracle.Python.{Python, num_of, field, num, end, obj, float_of, get}
use domesticoracle.Mail.{
  leading_zero_bits, solve_pow, solved, Creds, Tokens, Library, authorized, got, get_capability,
  jwt_exp,
}
use domesticoracle.Mail.Puzzle.{
  zero_prefix, bits_of, leading_zero_bits-zero_prefix, solve_pow-finds,
}
use domesticoracle.Mail.Reuse.{capability_reused}
use domesticoracle.Tests.Host.{host}

leading_zero_bits-zero_prefix_example :
    leading_zero_bits (0 ∷ 15 ∷ 255 ∷ []) 12 ≡ some (zero_prefix 12 (bits_of (0 ∷ 15 ∷ 255 ∷ [])))
leading_zero_bits-zero_prefix_example =
    leading_zero_bits-zero_prefix (0 ∷ 15 ∷ 255 ∷ []) 12 (omega arith) (omega arith)

abbrev easy : String → String → List ℕ
easy text salt = 0 ∷ 255 ∷ []

solve_pow-finds_example :
    solve_pow host easy (λ h. "00ff") "challenge" 8 "salt" 1 ≡ solved "00ff" "value"
solve_pow-finds_example =
    solve_pow-finds host easy (λ h. "00ff") "challenge" 8 "salt" 1 0 (omega arith) tt
      (unfold leading_zero_bits in refl)

-- A host whose JSON reader finds an expiry.
abbrev dated : Python
dated = record host { loads = λ s. some (obj (field "exp" (num (num_of 5000)) end)) }

abbrev library : Library ℕ
library = record {
  post = λ url bearer body n. (authorized "Bearer cap", n);
  split_dots = λ s. s ∷ s ∷ [];
  decode = λ s. some s;
  scrypt = easy;
  hex = λ h. "00ff";
  dumps_line = λ v. "json";
}

abbrev creds : Creds
creds = record { auth_url = "https://auth"; api_key = "key"; inbox_id = "oracle"; salt = "salt" }

abbrev after : Tokens
after = record {
  cached = "cap";
  cached_exp = num_of 5000;
  cap_file = some "cap";
  session_file = some "session";
}

capability_reused_example :
    get_capability dated library 0 (num_of 200) creds after 7 ≡ (got "cap", (after, 7))
capability_reused_example =
    capability_reused dated library 0 creds (num_of 100) (num_of 200) 0 after after 0 0 7 "cap"
      (unfold jwt_exp get float_of in refl) (unfold get_capability in refl)
      (unfold jwt_exp get float_of in refl)
