-- ===== src/Prelude/Table.antt =====
-- A keyed SQLite table: rows (key, value), at most one row a key where the key is the primary key.
use mathlib.Core.Path.{◌≡◌, refl}
use mathlib.Core.Bool.{Bool, true, false}
use mathlib.Core.Option.{Option, none, some}
use mathlib.Core.List.{List, [], ◌∷◌}
use native.Mathlib.Omega.{arith}
use domesticoracle.Prelude.Tests.{Eq, ◌==◌, if◌then◌else◌, Bool-cases}
use mathlib.Core.Logic.{inl, inr}

abbrev pub Table {ℓ κ} : Type ℓ → Type κ → Type (ℓ ⊔ κ)
Table K V = List (K × V)

abbrev pub map_value {κ} : {V : Type κ} → (V → V) → Option V → Option V
map_value f none = none
map_value f (some v) = some (f v)

abbrev pub unless {κ} : {V : Type κ} → (V → Bool) → Option V → Option V
unless p none = none
unless p (some v) = if p v then none else some v

pub eq_refl {ℓ} : {K : Type ℓ} ⦃e : Eq K⦄ (k : K) → (k == k) ≡ true
eq_refl ⦃e⦄ k = (e.beq_iff k k).1 refl

module _ {ℓ κ} {K : Type ℓ} {V : Type κ} ⦃e : Eq K⦄ where
  -- SELECT … WHERE key = k
  unfoldable pub lookup : K → Table K V → Option V
  lookup k [] = none
  lookup k ((j, v) ∷ t) = if j == k then some v else lookup k t

  -- INSERT … ON CONFLICT (key) DO UPDATE
  unfoldable pub put : K → V → Table K V → Table K V
  put k v [] = (k, v) ∷ []
  put k v ((j, w) ∷ t) = if j == k then (k, v) ∷ t else (j, w) ∷ put k v t

  -- UPDATE … WHERE key = k
  unfoldable pub update : K → (V → V) → Table K V → Table K V
  update k f [] = []
  update k f ((j, w) ∷ t) = if j == k then (j, f w) ∷ update k f t else (j, w) ∷ update k f t

  -- DELETE … WHERE key = k
  unfoldable pub erase : K → Table K V → Table K V
  erase k [] = []
  erase k ((j, w) ∷ t) = let rest = erase k t in if j == k then rest else (j, w) ∷ rest

  -- DELETE … WHERE p(value)
  unfoldable pub delete_where : (V → Bool) → Table K V → Table K V
  delete_where p [] = []
  delete_where p ((j, w) ∷ t) = let rest = delete_where p t in if p w then rest else (j, w) ∷ rest

  pub lookup-put :
      (k j : K) (v : V) (t : Table K V)
      → lookup j (put k v t) ≡ (if k == j then some v else lookup j t)
  unfolding lookup put
  lookup-put k j v [] = refl
  lookup-put k j v ((i, w) ∷ t) =
      ground (arith, e.beq_iff k j, e.beq_iff i k, e.beq_iff i j, lookup-put k j v t)

  pub lookup-erase :
      (k j : K) (t : Table K V) → lookup j (erase k t) ≡ (if k == j then none else lookup j t)
  unfolding lookup erase
  lookup-erase k j [] = ground arith
  lookup-erase k j ((i, w) ∷ t) =
      ground (arith, e.beq_iff k j, e.beq_iff i k, e.beq_iff i j, lookup-erase k j t)

  pub lookup-update :
      (k j : K) (f : V → V) (t : Table K V)
      → lookup j (update k f t) ≡ (if k == j then map_value f (lookup j t) else lookup j t)
  unfolding lookup update
  lookup-update k j f [] = ground arith
  lookup-update k j f ((i, w) ∷ t) =
      ground (arith, e.beq_iff k j, e.beq_iff i k, e.beq_iff i j, lookup-update k j f t)

  -- A row that stays is found as before, if no later row has its key.
  pub lookup-delete_where_kept :
      (p : V → Bool) (k : K) (v : V) (t : Table K V)
      → lookup k t ≡ some v
      → p v ≡ false
      → lookup k (delete_where p t) ≡ some v
  unfolding lookup delete_where
  lookup-delete_where_kept p k v [] h q = h
  lookup-delete_where_kept p k v ((i, w) ∷ t) h q = ground (arith, lookup-delete_where_kept p k v t)

  pub lookup-delete_where-none :
      (p : V → Bool) (k : K) (t : Table K V)
      → lookup k t ≡ none
      → lookup k (delete_where p t) ≡ none
  unfolding lookup delete_where
  lookup-delete_where-none p k [] h = h
  lookup-delete_where-none p k ((i, w) ∷ t) h = ground (arith, lookup-delete_where-none p k t)

  -- The primary key: no key stands in two rows.
  abbrev pub IsKeyed : Table K V → Type (ℓ ⊔ κ)
  IsKeyed [] = Unit
  IsKeyed ((k, v) ∷ t) = (lookup k t ≡ none) × IsKeyed t

  pub lookup-delete_where :
      (p : V → Bool) (k : K) (t : Table K V)
      → IsKeyed t
      → lookup k (delete_where p t) ≡ unless p (lookup k t)
  unfolding lookup delete_where
  lookup-delete_where p k [] h = refl
  lookup-delete_where p k ((i, w) ∷ t) h =
      ground
        (arith, e.beq_iff i k, lookup-delete_where p k t h.1, lookup-delete_where-none p i t h.0)

  pub put-IsKeyed : (k : K) (v : V) (t : Table K V) → IsKeyed t → IsKeyed (put k v t)
  unfolding put lookup
  put-IsKeyed k v [] h = (refl, tt)
  put-IsKeyed k v ((i, w) ∷ t) h =
      ground (arith, e.beq_iff i k, e.beq_iff k i, put-IsKeyed k v t h.1, lookup-put k i v t)

  pub update-IsKeyed : (k : K) (f : V → V) (t : Table K V) → IsKeyed t → IsKeyed (update k f t)
  unfolding update
  update-IsKeyed k f [] h = tt
  update-IsKeyed k f ((i, w) ∷ t) h =
      ground (arith, update-IsKeyed k f t h.1, lookup-update k i f t)

  pub erase-IsKeyed : (k : K) (t : Table K V) → IsKeyed t → IsKeyed (erase k t)
  unfolding erase
  erase-IsKeyed k [] h = tt
  erase-IsKeyed k ((i, w) ∷ t) h = ground (arith, erase-IsKeyed k t h.1, lookup-erase k i t)

  pub delete_where-IsKeyed : (p : V → Bool) (t : Table K V) → IsKeyed t → IsKeyed (delete_where p t)
  unfolding delete_where
  delete_where-IsKeyed p [] h = tt
  delete_where-IsKeyed p ((i, w) ∷ t) h =
      ground (arith, delete_where-IsKeyed p t h.1, lookup-delete_where-none p i t h.0)

  -- INSERT: `none` is the IntegrityError of a key that is taken.
  unfoldable pub insert : K → V → Table K V → Option (Table K V)
  insert k v t = elim (lookup k t) [ none ↦ some (put k v t) | some _ ↦ none ]

  -- DELETE … WHERE p(key)
  unfoldable pub delete_keys : (K → Bool) → Table K V → Table K V
  delete_keys p [] = []
  delete_keys p ((j, w) ∷ t) = let rest = delete_keys p t in if p j then rest else (j, w) ∷ rest

  pub lookup-delete_keys_kept :
      (p : K → Bool) (k : K) (t : Table K V) → p k ≡ false → lookup k (delete_keys p t) ≡ lookup k t
  unfolding lookup delete_keys
  lookup-delete_keys_kept p k [] q = refl
  lookup-delete_keys_kept p k ((i, w) ∷ t) q = elim (Bool-cases (i == k)) [
    | inl same ↦
        let p_i : p i ≡ false = rw ((e.beq_iff i k).0 same) q in
        ground (arith, lookup-delete_keys_kept p k t q)
    | inr other ↦ ground (arith, lookup-delete_keys_kept p k t q)
  ]

  pub lookup-insert :
      (k : K) (v : V) (t : Table K V) {t' : Table K V}
      → insert k v t ≡ some t'
      → lookup k t' ≡ some v
  unfolding insert
  lookup-insert k v t h = ground (arith, lookup-put k k v t, eq_refl k)
