-- ===== src/Stream/Search.antt =====
-- Where a text stands in another: at once, or not before a text without its first character is over.
use Prim.Native.Char.{Char, code, len_utf8}
use Prim.Native.Nat.{compare, Ordering}
use Prim.Native.String.append
use Prim.Native.String.find
use Prim.Native.String.len
use Prim.Native.String.{◌++◌ as append_text, find, len, begins, same}
use domesticoracle.Prelude.{
  ℕ, ◌+◌, String, ◌≡◌, refl, ◌∙◌, ap, sym, Bool, true, false, ◌&&◌, not, nat_beq, arith, leb,
}
use domesticoracle.Policy.{is_within}

compare_self : (n : ℕ) → compare n n ≡ Ordering.eq
compare_self n = ground arith

same_other : (a b y n : ℕ) → nat_beq a b ≡ false → same (compare a b) y n ≡ n
same_other a b y n h = ground arith

begins_prefix : (t v : String) (y n : ℕ) → begins (append_text t v) t y n ≡ y
begins_prefix String.[] v y n = refl
begins_prefix (String.◌∷◌ c t) v y n =
    ap (λ s. begins s (String.◌∷◌ c t) y n) (append.cons c t v)
    ∙ ap (λ o. same o (begins (append_text t v) t y n) n) (compare_self (code c))
    ∙ begins_prefix t v y n

find-eq-begins : (s t : String) → (n : ℕ) × (find s t ≡ begins s t 0 n)
find-eq-begins String.[] t = (1, find.nil t)
find-eq-begins (String.◌∷◌ c s) t = (len_utf8 c + find s t, find.cons c s t)

within_at : (s t : String) (n k : ℕ) → find s t ≡ n → len s ≡ k → is_within t s ≡ leb n k
within_at s t n k p q = ground arith

pub is_within-prefix : (t v : String) → is_within t (append_text t v) ≡ true
is_within-prefix t v =
    let (n, step) = find-eq-begins (append_text t v) t in
    within_at (append_text t v) t 0 _ (step ∙ begins_prefix t v 0 n) refl ∙ ground arith

-- The text does not hold that character.
abbrev pub lacks : Char → String → Bool
lacks d String.[] = true
lacks d (String.◌∷◌ c s) = not (nat_beq (code c) (code d)) && lacks d s

is_within-skip :
    (c d : Char) (s t : String)
    → nat_beq (code c) (code d) ≡ false
    → is_within (String.◌∷◌ d t) (String.◌∷◌ c s) ≡ is_within (String.◌∷◌ d t) s
is_within-skip c d s t h =
    within_at (String.◌∷◌ c s) (String.◌∷◌ d t) _ _
      (find.cons c s (String.◌∷◌ d t) ∙ same_other (code c) (code d) _ _ h) (len.cons c s)
    ∙ ground arith
    ∙ sym (within_at s (String.◌∷◌ d t) _ _ refl refl)

pub is_within-after :
    (p s : String) (d : Char) (t : String)
    → lacks d p ≡ true
    → is_within (String.◌∷◌ d t) (append_text p s) ≡ is_within (String.◌∷◌ d t) s
is_within-after String.[] s d t h = ap (is_within (String.◌∷◌ d t)) (append.nil s)
is_within-after (String.◌∷◌ c p) s d t h =
    ap (is_within (String.◌∷◌ d t)) (append.cons c p s)
    ∙ is_within-skip c d (append_text p s) t (ground arith)
    ∙ is_within-after p s d t (ground arith)
