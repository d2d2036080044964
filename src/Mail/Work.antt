-- ===== src/Mail/Work.antt =====
-- backend/domestic_oracle/atomicmail_client.py: the proof of work. `scrypt` is hashlib.scrypt with the
-- client's parameters, as its 64 bytes; `hex` is `bytes.hex`.
use domesticoracle.Prelude.{
  ℕ, zero, suc, ◌+◌, ◌-◌, ◌/◌, ◌%◌, ◌*◌, ◌^◌, String, Bool, true, false, Option, none, some, List,
  [], ◌∷◌, nat_beq, if◌then◌else◌,
}
use Prim.Native.Nat.{bit_and}
use domesticoracle.Python.{Python, concat, nat_text}

-- `(0xFF << (8 - rem)) & 0xFF`
abbrev pub mask_of : ℕ → ℕ
mask_of rem = 255 * 2 ^ (8 - rem) % 256

-- The first `full` bytes are 0, and then the first `rem` bits of the next; `none` is the IndexError of
-- a digest that is too short.
unfoldable pub zero_bytes : ℕ → ℕ → List ℕ → Option Bool
zero_bytes zero zero h = some true
zero_bytes zero (suc rem) [] = none
zero_bytes zero (suc rem) (b ∷ h) = some (nat_beq (bit_and b (mask_of (suc rem))) 0)
zero_bytes (suc full) zero [] = some true
zero_bytes (suc full) (suc rem) [] = none
zero_bytes (suc full) rem (b ∷ h) =
    let rest = zero_bytes full rem h in if nat_beq b 0 then rest else some false

unfoldable pub leading_zero_bits : List ℕ → ℕ → Option Bool
unfolding zero_bytes
leading_zero_bits h bits = zero_bytes (bits / 8) (bits % 8) h

-- How the search ends: with a nonce, with an exception, or not within the fuel.
pub data Search : Type 0 where
  solved : (pow_hex nonce : String) → Search
  too_short : Search
  unsolved : Search

-- One round: a hit, the next round, or the exception of a digest that is too short.
unfoldable pub solve_step : Option Bool → Search → Search → Search
solve_step none hit rest = too_short
solve_step (some true) hit rest = hit
solve_step (some false) hit rest = rest

module _ (py : Python) (scrypt : String → String → List ℕ) (hex : List ℕ → String)
    (challenge : String) (difficulty : ℕ) (salt : String) where
  abbrev pub digest_at : ℕ → List ℕ
  digest_at nonce = scrypt (concat (challenge ∷ ":" ∷ nat_text py nonce ∷ [])) salt

  -- The `while True` of `_solve_pow`.
  unfoldable pub solve_from : ℕ → ℕ → Search
  unfolding solve_step
  solve_from zero nonce = unsolved
  solve_from (suc fuel) nonce =
      let rest = solve_from fuel (nonce + 1) in
      solve_step (leading_zero_bits (digest_at nonce) difficulty)
        (solved (hex (digest_at nonce)) (nat_text py nonce)) rest

  unfoldable pub solve_pow : ℕ → Search
  unfolding solve_from
  solve_pow fuel = solve_from fuel 0
