-- ===== src/Mail/Puzzle.antt =====
-- What the proof of work tests, and that the search for it ends.
use Prim.Native.Nat.{bit_and}
use domesticoracle.Prelude.{
  ℕ, zero, suc, ◌+◌, ◌*◌, ◌≤◌, ◌<◌, ◌/◌, ◌%◌, String, Bool, true, false, not, ◌&&◌, Option, some,
  List, [], ◌∷◌, ◌++◌, ◌≡◌, refl, sym, ◌∙◌, ap, nat_beq, length, arith, All, if◌then◌else◌,
}
use domesticoracle.Python.{Python, nat_text}
use domesticoracle.Mail.Work.{
  mask_of, zero_bytes, leading_zero_bits, Search, solved, digest_at, solve_step, solve_from,
  solve_pow,
}

abbrev bit : ℕ → ℕ → Bool
bit k b = nat_beq (b / k % 2) 1

-- The bits of a byte, the highest first, before those of the bytes after it.
abbrev pub bits_before : ℕ → List Bool → List Bool
bits_before b rest =
    bit 128 b ∷ bit 64 b ∷ bit 32 b ∷ bit 16 b ∷ bit 8 b ∷ bit 4 b ∷ bit 2 b ∷ bit 1 b ∷ rest

abbrev pub bits_of : List ℕ → List Bool
bits_of [] = []
bits_of (b ∷ h) = bits_before b (bits_of h)

-- None of the first n bits is set.
abbrev pub zero_prefix : ℕ → List Bool → Bool
zero_prefix zero bits = true
zero_prefix (suc n) [] = true
zero_prefix (suc n) (b ∷ bits) = not b && zero_prefix n bits

all_below : ℕ → (ℕ → Bool) → Bool
all_below zero p = true
all_below (suc n) p = p n && all_below n p

all_below-holds : (n : ℕ) (p : ℕ → Bool) (x : ℕ) → all_below n p ≡ true → x < n → p x ≡ true
unfolding all_below
all_below-holds zero p x h lt = absurd (omega arith)
all_below-holds (suc n) p x h lt = ground (arith, all_below-holds n p x)

abbrev same : Bool → Bool → Bool
same true b = b
same false b = not b

same-eq : (a b : Bool) → same a b ≡ true → a ≡ b
same-eq a b h = ground arith

abbrev masked : ℕ → ℕ → Bool
masked rem b = nat_beq (bit_and b (mask_of rem)) 0

-- One row of the table for each number of bits, over all bytes.
abbrev agrees : ℕ → ℕ → Bool
agrees rem b = same (zero_prefix rem (bits_before b [])) (masked rem b)

table : ℕ → Bool
unfolding all_below
table rem = all_below 256 (agrees rem)

tables : all_below 9 table ≡ true
unfolding all_below table
tables = refl

zero_bytes_table : all_below 256 (λ b. same (zero_prefix 8 (bits_before b [])) (nat_beq b 0)) ≡ true
unfolding all_below
zero_bytes_table = refl

whole_byte : (b : ℕ) → b < 256 → zero_prefix 8 (bits_before b []) ≡ nat_beq b 0
whole_byte b h = same-eq _ _ (all_below-holds 256 _ b zero_bytes_table h)

part_of_byte : (rem b : ℕ) → rem < 9 → b < 256 → zero_prefix rem (bits_before b []) ≡ masked rem b
unfolding table
part_of_byte rem b r h =
    same-eq _ _ (all_below-holds 256 (agrees rem) b (all_below-holds 9 table rem tables r) h)

-- Up to eight bits are bits of the first byte.
first_byte :
    (rem b : ℕ) (rest : List Bool)
    → rem < 8
    → zero_prefix rem (bits_before b rest) ≡ zero_prefix rem (bits_before b [])
first_byte zero b rest h = refl
first_byte (suc zero) b rest h = refl
first_byte (suc (suc zero)) b rest h = refl
first_byte (suc (suc (suc zero))) b rest h = refl
first_byte (suc (suc (suc (suc zero)))) b rest h = refl
first_byte (suc (suc (suc (suc (suc zero))))) b rest h = refl
first_byte (suc (suc (suc (suc (suc (suc zero)))))) b rest h = refl
first_byte (suc (suc (suc (suc (suc (suc (suc zero))))))) b rest h = refl
first_byte (suc (suc (suc (suc (suc (suc (suc (suc n)))))))) b rest h = absurd (omega arith)

and_step : (a x y z : Bool) → x ≡ (y && z) → (a && x) ≡ ((a && y) && z)
and_step true x y z h = ground arith
and_step false x y z h = ground arith

abbrev past : List Bool → ℕ → ℕ
past [] n = n
past (x ∷ xs) n = suc (past xs n)

zero_prefix-append :
    (xs : List Bool) (n : ℕ) (rest : List Bool)
    → zero_prefix (past xs n) (xs ++ rest) ≡ (zero_prefix (past xs 0) xs && zero_prefix n rest)
zero_prefix-append [] n rest = ground arith
zero_prefix-append (x ∷ xs) n rest = and_step (not x) _ _ _ (zero_prefix-append xs n rest)

past_byte :
    (n b : ℕ) (rest : List Bool)
    → zero_prefix (suc (suc (suc (suc (suc (suc (suc (suc n)))))))) (bits_before b rest)
      ≡ (zero_prefix 8 (bits_before b []) && zero_prefix n rest)
past_byte n b rest = zero_prefix-append (bits_before b []) n rest

zero_plus : (n : ℕ) → n ≡ 8 * 0 + n
zero_plus n = omega arith

eight_plus :
    (full rem : ℕ)
    → suc (suc (suc (suc (suc (suc (suc (suc (8 * full + rem)))))))) ≡ 8 * suc full + rem
eight_plus full rem = omega arith

parts : (bits : ℕ) → 8 * (bits / 8) + bits % 8 ≡ bits
parts bits = omega arith

one_byte :
    (zero_byte b : Bool) (o : Option Bool)
    → o ≡ some b
    → (if zero_byte then o else some false) ≡ some (zero_byte && b)
one_byte true b o h = h
one_byte false b o h = refl

zero_bytes-prefix :
    (full rem : ℕ) (h : List ℕ)
    → All (λ b. b < 256) h
    → rem < 8
    → 8 * full + rem ≤ 8 * length h
    → zero_bytes full rem h ≡ some (zero_prefix (8 * full + rem) (bits_of h))
unfolding zero_bytes
zero_bytes-prefix zero zero h bytes r long = refl
zero_bytes-prefix zero (suc rem) [] bytes r long = absurd (omega arith)
zero_bytes-prefix zero (suc rem) (b ∷ h) bytes r long =
    ap some
      (sym (first_byte (suc rem) b (bits_of h) r ∙ part_of_byte (suc rem) b (omega arith) bytes.0))
    ∙ ap (λ n. some (zero_prefix n (bits_of (b ∷ h)))) (zero_plus (suc rem))
zero_bytes-prefix (suc full) rem [] bytes r long = absurd (omega arith)
zero_bytes-prefix (suc full) rem (b ∷ h) bytes r long =
    let rest = zero_bytes-prefix full rem h bytes.1 r (omega arith) in
    one_byte (nat_beq b 0) _ _ rest
    ∙ ap some (
        sym (
          past_byte (8 * full + rem) b (bits_of h)
          ∙ ap (λ z. z && zero_prefix (8 * full + rem) (bits_of h)) (whole_byte b bytes.0)))
    ∙ ap (λ n. some (zero_prefix n (bits_of (b ∷ h)))) (eight_plus full rem)

-- The test of the client is that none of the first bits of the digest, written out with the highest
-- bit of each byte first, is set. The digest consists of bytes and is long enough.
pub leading_zero_bits-zero_prefix :
    (h : List ℕ) (bits : ℕ)
    → All (λ b. b < 256) h
    → bits ≤ 8 * length h
    → leading_zero_bits h bits ≡ some (zero_prefix bits (bits_of h))
unfolding leading_zero_bits
leading_zero_bits-zero_prefix h bits bytes long =
    zero_bytes-prefix (bits / 8) (bits % 8) h bytes (omega arith) (omega arith)
    ∙ ap (λ n. some (zero_prefix n (bits_of h))) (parts bits)

module _ (py : Python) (scrypt : String → String → List ℕ) (hex : List ℕ → String)
    (challenge : String) (difficulty : ℕ) (salt : String) where
  abbrev digest : ℕ → List ℕ
  digest nonce = digest_at py scrypt hex challenge difficulty salt nonce

  abbrev tested : ℕ → Option Bool
  tested nonce = leading_zero_bits (digest nonce) difficulty

  -- The nonces from one up to another, the second excluded, all fail the test.
  abbrev AllFail : ℕ → ℕ → Type 0
  AllFail from zero = Unit {0}
  AllFail from (suc n) = (tested from ≡ some false) × AllFail (from + 1) n

  abbrev rest : ℕ → ℕ → Search
  rest fuel from = solve_from py scrypt hex challenge difficulty salt fuel (from + 1)

  solve_from-finds :
      (fuel n from : ℕ)
      → n < fuel
      → AllFail from n
      → tested (from + n) ≡ some true
      → solve_from py scrypt hex challenge difficulty salt fuel from
        ≡ solved (hex (digest (from + n))) (nat_text py (from + n))
  unfolding solve_from solve_step
  solve_from-finds zero n from lt fail ok = absurd (omega arith)
  solve_from-finds (suc fuel) zero from lt fail ok =
      let here : from + 0 ≡ from = omega arith in
      let now : tested from ≡ some true = ap tested (sym here) ∙ ok in
      ap (λ o. solve_step o (solved (hex (digest from)) (nat_text py from)) (rest fuel from)) now
      ∙ ap (λ k. solved (hex (digest k)) (nat_text py k)) (sym here)
  solve_from-finds (suc fuel) (suc n) from lt fail ok =
      let there : from + 1 + n ≡ from + suc n = omega arith in
      ap (λ o. solve_step o (solved (hex (digest from)) (nat_text py from)) (rest fuel from)) fail.0
      ∙ (solve_from-finds fuel n (from + 1) (omega arith) fail.1 (ap tested there ∙ ok)
          ∙ ap (λ k. solved (hex (digest k)) (nat_text py k)) there)

  -- Where a nonce passes the test and all below it fail, the search ends with that nonce and its
  -- digest, with any fuel above the nonce: the loop runs one round for each nonce up to it.
  pub solve_pow-finds :
      (fuel n : ℕ)
      → n < fuel
      → AllFail 0 n
      → tested n ≡ some true
      → solve_pow py scrypt hex challenge difficulty salt fuel
        ≡ solved (hex (digest n)) (nat_text py n)
  unfolding solve_pow
  solve_pow-finds fuel n lt fail ok =
      let same_n : 0 + n ≡ n = omega arith in
      solve_from-finds fuel n 0 lt fail (ap tested same_n ∙ ok)
      ∙ ap (λ k. solved (hex (digest k)) (nat_text py k)) same_n
