-- ===== src/Ledger/Chain.antt =====
-- The hash chain as a predicate on rows, and that the walk of verify_chain decides it.
use domesticoracle.Prelude.{ℕ, String, ◌≡◌, refl, true, List, [], ◌∷◌, ◌++◌, arith, text_eq, eq_iff}
use domesticoracle.Python.{Python}
use domesticoracle.Crypto.{Signatures}
use domesticoracle.Ledger.Entry.{Row}
use domesticoracle.Ledger.Verify.{walked, walk, hash_matches, verify_entry_sig}

-- Where a walk ends that began at an id, or at a hash.
abbrev pub last_id_of : ℕ → List Row → ℕ
last_id_of checked [] = checked
last_id_of checked (e ∷ rows) = last_id_of e.id rows

abbrev pub last_hash_of : String → List Row → String
last_hash_of prev_hash [] = prev_hash
last_hash_of prev_hash (e ∷ rows) = last_hash_of e.hash rows

pub last_hash_of-append :
    (prev_hash : String) (xs : List Row) (e : Row) → last_hash_of prev_hash (xs ++ e ∷ []) ≡ e.hash
last_hash_of-append prev_hash [] e = refl
last_hash_of-append prev_hash (x ∷ xs) e = last_hash_of-append x.hash xs e

pub last_id_of-append :
    (checked : ℕ) (xs : List Row) (e : Row) → last_id_of checked (xs ++ e ∷ []) ≡ e.id
last_id_of-append checked [] e = refl
last_id_of-append checked (x ∷ xs) e = last_id_of-append x.id xs e

module _ (py : Python) (sg : Signatures) (own : String) (pubs : List String) where
  -- Each row names the hash of the one before, has a hash of its contents, and is signed.
  abbrev pub IsChain : String → List Row → Type 0
  IsChain prev_hash [] = Unit
  IsChain prev_hash (e ∷ rows) =
      (e.prev_hash ≡ prev_hash)
      × (hash_matches py sg own pubs e ≡ true)
      × (verify_entry_sig py sg own pubs e ≡ true)
      × IsChain e.hash rows

  pub walk_complete :
      (checked : ℕ) (prev_hash : String) (rows : List Row)
      → IsChain prev_hash rows
      → walk py sg own pubs checked prev_hash rows
        ≡ walked (last_id_of checked rows) (last_hash_of prev_hash rows)
  unfolding walk
  walk_complete checked prev_hash [] h = refl
  walk_complete checked prev_hash (e ∷ rows) h =
      ground (arith, eq_iff e.prev_hash prev_hash, walk_complete e.id e.hash rows h.3)

  pub walk_sound :
      (checked c : ℕ) (prev_hash h : String) (rows : List Row)
      → walk py sg own pubs checked prev_hash rows ≡ walked c h
      → IsChain prev_hash rows
  unfolding walk
  walk_sound checked c prev_hash h [] w = tt
  walk_sound checked c prev_hash h (e ∷ rows) w =
      ground (arith, eq_iff e.prev_hash prev_hash, walk_sound e.id c e.hash h rows)

  -- A chain that is cut in two: the second part starts from the hash at which the first ends.
  pub IsChain-append :
      (prev_hash : String) (xs ys : List Row)
      → IsChain prev_hash xs
      → IsChain (last_hash_of prev_hash xs) ys
      → IsChain prev_hash (xs ++ ys)
  IsChain-append prev_hash [] ys h k = k
  IsChain-append prev_hash (e ∷ xs) ys h k = (h.0, h.1, h.2, IsChain-append e.hash xs ys h.3 k)

  pub IsChain-drop :
      (prev_hash : String) (xs ys : List Row)
      → IsChain prev_hash (xs ++ ys)
      → IsChain (last_hash_of prev_hash xs) ys
  IsChain-drop prev_hash [] ys h = h
  IsChain-drop prev_hash (e ∷ xs) ys h = IsChain-drop e.hash xs ys h.3
