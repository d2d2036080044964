-- ===== src/Ledger/Numbering.antt =====
-- The rows in the order of their ids, and where walks over them start and end.
use domesticoracle.Prelude.{
  ℕ, ◌+◌, ◌≤◌, ◌<◌, String, ◌≡◌, refl, Bool, none, some, List, [], ◌∷◌, ◌++◌, arith, keep, last?,
  ltb, nat_eq,
}
use domesticoracle.Prelude.Table.{eq_refl}
use domesticoracle.Ledger.Entry.{Row, genesis_hash}
use domesticoracle.Ledger.Append.{tip}
use domesticoracle.Ledger.Anchoring.{hash_at}
use domesticoracle.Ledger.Chain.{last_id_of, last_hash_of}

-- The ids ascend from above `lo` to at most `hi`.
abbrev pub IsNumbered : ℕ → ℕ → List Row → Type 0
IsNumbered lo hi [] = lo ≤ hi
IsNumbered lo hi (e ∷ rows) = (lo < e.id) × IsNumbered e.id hi rows

pub IsNumbered-append :
    (lo hi : ℕ) (rows : List Row) (e : Row)
    → IsNumbered lo hi rows
    → e.id ≡ hi + 1
    → IsNumbered lo (hi + 1) (rows ++ e ∷ [])
IsNumbered-append lo hi [] e h i = omega arith
IsNumbered-append lo hi (x ∷ rows) e h i = (h.0, IsNumbered-append x.id hi rows e h.1 i)

pub last_id_of-le :
    (lo hi : ℕ) (xs ys : List Row) → IsNumbered lo hi (xs ++ ys) → lo ≤ last_id_of lo xs
last_id_of-le lo hi [] ys h = omega arith
last_id_of-le lo hi (e ∷ xs) ys h = omega (arith, last_id_of-le e.id hi xs ys h.1)

abbrev pub after : ℕ → Row → Bool
after start r = ltb start r.id

pub keep_above :
    (start lo hi : ℕ) (rows : List Row)
    → start ≤ lo
    → IsNumbered lo hi rows
    → keep (after start) rows ≡ rows
keep_above start lo hi [] s h = refl
keep_above start lo hi (e ∷ rows) s h = ground (arith, keep_above start e.id hi rows)

-- The rows that a walk from the end of `xs` reads are those behind `xs`.
pub keep-after :
    (lo hi : ℕ) (xs ys : List Row)
    → IsNumbered lo hi (xs ++ ys)
    → keep (after (last_id_of lo xs)) (xs ++ ys) ≡ ys
keep-after lo hi [] ys h = keep_above lo lo hi ys (omega arith) h
keep-after lo hi (e ∷ xs) ys h =
    ground (arith, last_id_of-le e.id hi xs ys h.1, keep-after e.id hi xs ys h.1)

last_hash_step :
    (g g' : String) (e : Row) (rows : List Row)
    → elim (last? (e ∷ rows)) [ none ↦ g | some row ↦ row.hash ] ≡ last_hash_of g' (e ∷ rows)
last_hash_step g g' e [] = refl
last_hash_step g g' e (f ∷ rows) = last_hash_step g e.hash f rows

-- The hash of the last row is where a walk from the start ends.
pub tip-eq : (rows : List Row) → tip rows ≡ last_hash_of genesis_hash rows
tip-eq [] = refl
tip-eq (e ∷ rows) = last_hash_step genesis_hash genesis_hash e rows

pub hash_at-last :
    (lo hi : ℕ) (rows : List Row) (e : Row)
    → IsNumbered lo hi rows
    → e.id ≡ hi + 1
    → hash_at e.id (rows ++ e ∷ []) ≡ some e.hash
unfolding hash_at
hash_at-last lo hi [] e h i = ground (arith, eq_refl e.id)
hash_at-last lo hi (x ∷ rows) e h i =
    ground (arith, hash_at-last x.id hi rows e h.1 i, id_le x.id rows h.1)
  where
    id_le : (lo : ℕ) (rows : List Row) → IsNumbered lo hi rows → lo ≤ hi
    id_le lo [] k = k
    id_le lo (y ∷ rows) k = omega (arith, id_le y.id rows k.1)

pub last_id_of-++ :
    (lo : ℕ) (xs ys : List Row) → last_id_of lo (xs ++ ys) ≡ last_id_of (last_id_of lo xs) ys
last_id_of-++ lo [] ys = refl
last_id_of-++ lo (e ∷ xs) ys = last_id_of-++ e.id xs ys

pub last_hash_of-++ :
    (g : String) (xs ys : List Row)
    → last_hash_of g (xs ++ ys) ≡ last_hash_of (last_hash_of g xs) ys
last_hash_of-++ g [] ys = refl
last_hash_of-++ g (e ∷ xs) ys = last_hash_of-++ e.hash xs ys
