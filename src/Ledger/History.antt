-- ===== src/Ledger/History.antt =====
-- Tamper evidence of the whole ledger: the hash of the last entry fixes the history before it.
-- Rows stand with the newest first, as list_entries returns them.
use domesticoracle.Prelude.{
  ℕ, String, ◌≡◌, refl, sym, ◌∙◌, true, ◌⊎◌, inl, inr, List, [], ◌∷◌, arith,
}
use domesticoracle.Python.{Python}
use domesticoracle.Crypto.{Signatures}
use domesticoracle.Ledger.Entry.{
  Row, genesis_hash, canonical, canonical_legacy, compute_hash, legacy_hash,
}
use domesticoracle.Ledger.Verify.{hash_matches, walk, walked}
use domesticoracle.Ledger.Chain.{IsChain, last_hash_of, walk_sound, walk_complete}
use domesticoracle.Ledger.Tamper.{
  core, Agree, Collision, IsText, IsWritten, format_cases, rows-Agree,
}

abbrev pub newest : List Row → String
newest [] = genesis_hash
newest (e ∷ older) = e.hash

-- The oldest first, as verify_chain reads them.
abbrev pub onto : List Row → List Row → List Row
onto [] acc = acc
onto (e ∷ rows) acc = onto rows (e ∷ acc)

module _ (py : Python) where
  -- A text hashed for one of the entries has the hash that marks the start.
  abbrev pub GenesisPreimage : List Row → Type 0
  GenesisPreimage [] = ⊥
  GenesisPreimage (e ∷ rows) =
      ((text : String) × IsText py e text × (py.sha256 text ≡ genesis_hash)) ⊎ GenesisPreimage rows

  -- A collision between two entries that have as many entries above them.
  abbrev pub LevelCollision : List Row → List Row → Type 0
  LevelCollision (e ∷ xs) (f ∷ ys) = Collision py e f ⊎ LevelCollision xs ys
  LevelCollision _ _ = ⊥

  -- A break of SHA-256 that the texts hashed for the two lists of entries exhibit.
  abbrev pub Break : List Row → List Row → Type 0
  Break xs ys = LevelCollision xs ys ⊎ (GenesisPreimage xs ⊎ GenesisPreimage ys)

  -- The writer of JSON does as documented on each two entries that have as many entries above them.
  abbrev pub LevelWritten : List Row → List Row → Type 0
  LevelWritten (e ∷ xs) (f ∷ ys) = IsWritten py e f × LevelWritten xs ys
  LevelWritten _ _ = Unit

  deeper : (e f : Row) (xs ys : List Row) → Break xs ys → Break (e ∷ xs) (f ∷ ys)
  deeper e f xs ys (inl c) = inl (inr c)
  deeper e f xs ys (inr (inl p)) = inr (inl (inr p))
  deeper e f xs ys (inr (inr p)) = inr (inr (inr p))

  -- As many rows, and each two equal in what their hashes cover.
  abbrev pub SameHistory : List Row → List Row → Type 0
  SameHistory [] [] = Unit
  SameHistory (e ∷ xs) (f ∷ ys) = Agree py e f × SameHistory xs ys
  SameHistory _ _ = ⊥

  module _ (sg : Signatures) (own : String) (pubs : List String) where
    abbrev pub IsHistory : List Row → Type 0
    IsHistory [] = Unit
    IsHistory (e ∷ older) =
        (e.prev_hash ≡ newest older) × (hash_matches py sg own pubs e ≡ true) × IsHistory older

    preimage :
        (e : Row)
        → hash_matches py sg own pubs e ≡ true
        → genesis_hash ≡ e.hash
        → (text : String) × IsText py e text × (py.sha256 text ≡ genesis_hash)
    unfolding compute_hash legacy_hash
    preimage e h g = elim (format_cases py sg own pubs e h) [
      | inl modern ↦ (canonical py e, inl refl, modern ∙ sym g)
      | inr legacy ↦ (canonical_legacy py e, inr refl, legacy.1 ∙ sym g)
    ]

    prev_of_core : (e f : Row) → core e ≡ core f → e.prev_hash ≡ f.prev_hash
    prev_of_core e f h = ground arith

    same_history :
        (xs ys : List Row)
        → LevelWritten xs ys
        → IsHistory xs
        → IsHistory ys
        → newest xs ≡ newest ys
        → SameHistory xs ys ⊎ Break xs ys
    same_history [] [] w hx hy t = inl tt
    same_history [] (f ∷ ys) w hx hy t = inr (inr (inr (inl (preimage f hy.1 t))))
    same_history (e ∷ xs) [] w hx hy t = inr (inr (inl (inl (preimage e hx.1 (sym t)))))
    same_history (e ∷ xs) (f ∷ ys) w hx hy t =
        elim (rows-Agree py sg own pubs e f w.0 hx.1 hy.1 t) [
          | inr c ↦ inr (inl (inl c))
          | inl agree ↦
              elim (same_history xs ys w.1 hx.2 hy.2 (sym hx.0 ∙ prev_of_core e f agree.0 ∙ hy.0)) [
                | inl same ↦ inl (agree, same)
                | inr b ↦ inr (deeper e f xs ys b)
              ]
        ]

    IsHistory-onto :
        (rows acc : List Row)
        → IsChain py sg own pubs (newest acc) rows
        → IsHistory acc
        → IsHistory (onto rows acc)
    IsHistory-onto [] acc c h = h
    IsHistory-onto (e ∷ rows) acc c h = IsHistory-onto rows (e ∷ acc) c.3 (c.0, c.1, h)

    newest-onto : (rows acc : List Row) → newest (onto rows acc) ≡ last_hash_of (newest acc) rows
    newest-onto [] acc = refl
    newest-onto (e ∷ rows) acc = newest-onto rows (e ∷ acc)

    -- Two ledgers that both pass verification from the start and end in the same hash hold the same
    -- history: as many entries, each pair equal in every field that its hash covers. Otherwise two
    -- different texts that were hashed for a pair of entries have one hash, or a text that was hashed
    -- for an entry has the hash that marks the start. For an entry hashed in the legacy format,
    -- args_json, category and risk are not covered. Of the writer of JSON it takes, for each pair of
    -- entries counted from the newest, that a text tells the values it was written of and that the
    -- texts of the two formats differ.
    pub tip_fixes_history :
        (c c' : ℕ) (h : String) (rows rows' : List Row)
        → LevelWritten (onto rows []) (onto rows' [])
        → walk py sg own pubs 0 genesis_hash rows ≡ walked c h
        → walk py sg own pubs 0 genesis_hash rows' ≡ walked c' h
        → SameHistory (onto rows []) (onto rows' []) ⊎ Break (onto rows []) (onto rows' [])
    tip_fixes_history c c' h rows rows' written w w' =
        let k = walk_sound py sg own pubs 0 c genesis_hash h rows w in
        let k' = walk_sound py sg own pubs 0 c' genesis_hash h rows' w' in
        same_history (onto rows []) (onto rows' []) written (IsHistory-onto rows [] k tt)
          (IsHistory-onto rows' [] k' tt)
          (newest-onto rows []
            ∙ end_hash c rows k w
            ∙ sym (end_hash c' rows' k' w')
            ∙ sym (newest-onto rows' []))
      where
        end_hash :
            (c : ℕ) (rows : List Row)
            → IsChain py sg own pubs genesis_hash rows
            → walk py sg own pubs 0 genesis_hash rows ≡ walked c h
            → last_hash_of genesis_hash rows ≡ h
        end_hash c rows k w = cc (walk_complete py sg own pubs 0 genesis_hash rows k)
