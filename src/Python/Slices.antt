-- ===== src/Python/Slices.antt =====
-- What slices of texts are.
use Prim.Native.String.append
use Prim.Native.String.{◌++◌ as append_text}
use domesticoracle.Prelude.{ℕ, zero, suc, ◌+◌, ◌-◌, ◌≤◌, String, ◌≡◌, ap, arith}
use domesticoracle.Python.Text.{text_length, take_text}

pub text_length-append :
    (s t : String) → text_length (append_text s t) ≡ text_length s + text_length t
unfolding text_length
text_length-append String.[] t = rw (append.nil t) (omega arith)
text_length-append (String.◌∷◌ c s) t =
    rw (append.cons c s t) (omega (arith, text_length-append s t))

pub text_length-take : (n : ℕ) (s : String) → text_length (take_text n s) ≤ n
unfolding text_length take_text
text_length-take zero s = omega arith
text_length-take (suc n) String.[] = omega arith
text_length-take (suc n) (String.◌∷◌ c s) = omega (arith, text_length-take n s)

pub take-append :
    (s t : String) (n : ℕ)
    → text_length s ≤ n
    → take_text n (append_text s t) ≡ append_text s (take_text (n - text_length s) t)
unfolding text_length take_text
take-append String.[] t n h =
    rw (append.nil t, append.nil (take_text (n - 0) t)) (ap (λ k. take_text k t) (omega arith))
take-append (String.◌∷◌ c s) t zero h = absurd (omega arith)
take-append (String.◌∷◌ c s) t (suc n) h =
    let same : suc n - suc (text_length s) ≡ n - text_length s = omega arith in
    rw (same, append.cons c s t, append.cons c s (take_text (n - text_length s) t))
      (ap (λ (x : String). String.◌∷◌ c x) (take-append s t n (omega arith)))
