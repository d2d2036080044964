-- ===== src/Ledger/Growth.antt =====
-- The ledger in use: appending and verifying, in any order, never raises a false alarm.
use domesticoracle.Prelude.{
  ℕ, ◌+◌, String, ◌≡◌, ◌≢◌, refl, ap, sym, ◌∙◌, Bool, true, false, ◌⊎◌, inl, inr, none, some, List,
  [], ◌∷◌, ◌++◌, arith, keep, length, last?, ltb, text_eq, nat_eq, eq_iff, if◌then◌else◌,
}
use mathlib.Core.List.{append_assoc, append-nil}
use domesticoracle.Prelude.Table.{eq_refl}
use domesticoracle.Python.{Python}
use domesticoracle.Crypto.{Signatures}
use domesticoracle.Ledger.Entry.{
  Row, Ledger, Anchor, genesis_hash, compute_hash, anchor_text, payload, init_db,
}
use domesticoracle.Ledger.Append.{Draft, tip, new_entry, append}
use domesticoracle.Ledger.Verify.{
  Verdict, walked, walk, hash_matches, verify_entry_sig, verify_chain, conclude,
}
use domesticoracle.Ledger.Anchoring.{hash_at, verify_anchor, integrity}
use domesticoracle.Ledger.Truncation.{anchor_of, anchor_line}
use domesticoracle.Ledger.Numbering.{
  IsNumbered, IsNumbered-append, keep_above, keep-after, after, tip-eq, hash_at-last, last_id_of-++,
  last_hash_of-++,
}
use domesticoracle.Ledger.Chain.{
  IsChain, last_id_of, last_hash_of, walk_complete, IsChain-append, IsChain-drop,
}

-- What is done with a ledger: an entry is appended, or the ledger is checked.
pub data Use : Type 0 where
  record_entry : ℕ → ℕ → Draft → Use
  check : Bool → Use

module _ (py : Python) (sg : Signatures) (key : String) (rest : List String) where
  pub perform : Use → Ledger → Ledger
  perform (record_entry now written d) l = (append py sg key now written d l).1
  perform (check full) l = (integrity py sg (sg.public_of key) (sg.public_of key ∷ rest) full l).1

  pub perform_all : List Use → Ledger → Ledger
  perform_all [] l = l
  perform_all (u ∷ uses) l = perform_all uses (perform u l)

-- What the package `cryptography` documents: what a private key signs, its public key verifies. A
-- signature's hex text is not empty, and neither is the public key's.
module _ (py : Python) (sg : Signatures) (key : String) (rest : List String)
    (signed : (text : String)
      → sg.verify_with (sg.public_of key) text (sg.sign_with key text) ≡ true)
    (signature_set : (text : String) → sg.sign_with key text ≢ "") where
  abbrev own : String
  own = sg.public_of key

  abbrev pubs : List String
  pubs = sg.public_of key ∷ rest

  abbrev IsChain' : String → List Row → Type 0
  IsChain' = IsChain py sg own pubs

  -- The last line of anchor.log is signed and names the hash of an entry that is stored.
  abbrev pub IsAnchored : Ledger → Type 0
  IsAnchored l =
      (l.anchor_file ≡ none)
      ⊎ ((lines : List Anchor) × (a : Anchor) × (l.anchor_file ≡ some lines)
          × (last? lines ≡ some a)
          × (sg.verify_with own (anchor_text py a.id a.hash) a.sig ≡ true)
          × (hash_at a.id l.rows ≡ some a.hash))

  -- The rows form a chain from the start, in the order of their ids, and the checkpoint in memory is
  -- the end of a part of them.
  pub record IsSound (l : Ledger) : Type 0 where
    pub chain : IsChain' genesis_hash l.rows
    pub numbered : IsNumbered 0 l.last_id l.rows
    pub old : List Row
    pub new : List Row
    pub parted : l.rows ≡ old ++ new
    pub at_id : l.checkpoint_id ≡ last_id_of 0 old
    pub at_hash : l.checkpoint_hash ≡ last_hash_of genesis_hash old
    pub anchored : IsAnchored l

  sealed_matches :
      (e : Row) (s : String)
      → hash_matches py sg own pubs (record e { hash = compute_hash py e; sig = s }) ≡ true
  unfolding hash_matches compute_hash payload
  sealed_matches e s = ground (arith, eq_refl (compute_hash py e))

  signed_verifies :
      (e : Row)
      → e.sig ≢ ""
      → sg.verify_with own e.hash e.sig ≡ true
      → verify_entry_sig py sg own pubs e ≡ true
  unfolding verify_entry_sig
  signed_verifies e s v = ground (arith, eq_iff e.sig "")

  new_entry-IsChain :
      (now written : ℕ) (d : Draft) (l : Ledger) (prev_hash : String)
      → tip l.rows ≡ prev_hash
      → IsChain' prev_hash (new_entry py sg key now written d l ∷ [])
  unfolding new_entry
  new_entry-IsChain now written d l prev_hash t =
      let e = new_entry py sg key now written d l in
      (t, sealed_matches _ _, signed_verifies e (signature_set e.hash) (signed e.hash), tt)

  checkpoint_walk :
      (old new rows : List Row) (hi start : ℕ) (prev_hash : String)
      → rows ≡ old ++ new
      → start ≡ last_id_of 0 old
      → prev_hash ≡ last_hash_of genesis_hash old
      → IsNumbered 0 hi rows
      → IsChain' genesis_hash rows
      → walk py sg own pubs start prev_hash (keep (after start) rows)
        ≡ walked (last_id_of 0 rows) (last_hash_of genesis_hash rows)
  checkpoint_walk old new rows hi start prev_hash p q r n c =
      rw (p, q, r)
        (rw
          (
            keep-after 0 hi old new (rw p at n),
            last_id_of-++ 0 old new,
            last_hash_of-++ genesis_hash old new,
          )
          (walk_complete py sg own pubs (last_id_of 0 old) (last_hash_of genesis_hash old) new
            (IsChain-drop py sg own pubs genesis_hash old new (rw p at c))))

  -- The walk of a sound ledger, from the start or from the checkpoint, reaches its end.
  sound_walk :
      (full : Bool) (l : Ledger)
      → IsSound l
      → walk py sg own pubs
          (if full then 0 else l.checkpoint_id)
          (if full then genesis_hash else l.checkpoint_hash)
          (keep (λ (r : Row). ltb (if full then 0 else l.checkpoint_id) r.id) l.rows)
        ≡ walked (last_id_of 0 l.rows) (last_hash_of genesis_hash l.rows)
  sound_walk true l v =
      rw (keep_above 0 0 l.last_id l.rows (omega arith) v.numbered)
        (walk_complete py sg own pubs 0 genesis_hash l.rows v.chain)
  sound_walk false l v =
      checkpoint_walk v.old v.new l.rows l.last_id l.checkpoint_id l.checkpoint_hash v.parted
        v.at_id v.at_hash v.numbered v.chain

  append_chain :
      (now written : ℕ) (d : Draft) (l : Ledger)
      → IsChain' genesis_hash l.rows
      → IsChain' genesis_hash (append py sg key now written d l).1.rows
  unfolding append
  append_chain now written d l c =
      IsChain-append py sg own pubs genesis_hash l.rows (new_entry py sg key now written d l ∷ []) c
        (new_entry-IsChain now written d l (last_hash_of genesis_hash l.rows) (tip-eq l.rows))

  append-IsAnchored :
      (now written : ℕ) (d : Draft) (l : Ledger)
      → IsNumbered 0 l.last_id l.rows
      → IsAnchored (append py sg key now written d l).1
  unfolding append anchor_of
  append-IsAnchored now written d l n =
      let e = new_entry py sg key now written d l in
      let (lines, written_to, ends) =
        anchor_line py sg key written (l.last_id + 1) e.hash l.anchor_file in
      inr (
        lines,
        anchor_of py sg key written (l.last_id + 1) e.hash,
        written_to,
        ends,
        unfold anchor_of in signed _,
        hash_at-last 0 l.last_id l.rows e n refl,
      )

  append-IsSound :
      (now written : ℕ) (d : Draft) (l : Ledger)
      → IsSound l
      → IsSound (append py sg key now written d l).1
  unfolding append
  append-IsSound now written d l v =
      let e = new_entry py sg key now written d l in
      record {
        chain = append_chain now written d l v.chain;
        numbered = IsNumbered-append 0 l.last_id l.rows e v.numbered refl;
        old = v.old;
        new = v.new ++ e ∷ [];
        parted =
            ap (λ (rows : List Row). rows ++ e ∷ []) v.parted ∙ append_assoc v.old v.new (e ∷ []);
        at_id = v.at_id;
        at_hash = v.at_hash;
        anchored = append-IsAnchored now written d l v.numbered;
      }

  verdict_sound : (full : Bool) (l : Ledger) → IsSound l → Verdict × Ledger
  verdict_sound full l v =
      conclude py sg own pubs (walked (last_id_of 0 l.rows) (last_hash_of genesis_hash l.rows)) l

  verify_chain_sound :
      (full : Bool) (l : Ledger) (v : IsSound l)
      → verify_chain py sg own pubs full l ≡ verdict_sound full l v
  unfolding verify_chain verdict_sound
  verify_chain_sound full l v = rw (sound_walk full l v)

  verify_chain-IsSound :
      (full : Bool) (l : Ledger) → IsSound l → IsSound (verify_chain py sg own pubs full l).1
  verify_chain-IsSound full l v = rw (verify_chain_sound full l v) (
      unfold verdict_sound in
      record {
        chain = v.chain;
        numbered = v.numbered;
        old = l.rows;
        new = [];
        parted = sym (append-nil l.rows);
        at_id = refl;
        at_hash = refl;
        anchored = v.anchored;
      })

  anchored_consistent : (l : Ledger) → IsAnchored l → (verify_anchor py sg own l).consistent ≡ true
  unfolding verify_anchor
  anchored_consistent l (inl missing) = ground arith
  anchored_consistent l (inr (lines, a, file, ends, good, found)) = ground (arith, eq_refl a.hash)

  -- A sound ledger passes the whole check, from the start or from the checkpoint.
  integrity_sound :
      (full : Bool) (l : Ledger)
      → IsSound l
      → ((integrity py sg own pubs full l).0.valid ≡ true)
        × ((integrity py sg own pubs full l).0.checked ≡ length l.rows)
  unfolding integrity
  integrity_sound full l v = rw (verify_chain_sound full l v) (
      unfold verdict_sound in
      (ground (arith, anchored_consistent (verdict_sound full l v).1 v.anchored), refl))

  perform-IsSound : (u : Use) (l : Ledger) → IsSound l → IsSound (perform py sg key rest u l)
  unfolding perform integrity
  perform-IsSound (record_entry now written d) l v = append-IsSound now written d l v
  perform-IsSound (check full) l v = verify_chain-IsSound full l v

  perform_all-IsSound :
      (uses : List Use) (l : Ledger) → IsSound l → IsSound (perform_all py sg key rest uses l)
  unfolding perform_all
  perform_all-IsSound [] l v = v
  perform_all-IsSound (u ∷ uses) l v =
      perform_all-IsSound uses (perform py sg key rest u l) (perform-IsSound u l v)

  init-IsSound : IsSound init_db
  init-IsSound = record {
    chain = tt;
    numbered = omega arith;
    old = [];
    new = [];
    parted = refl;
    at_id = refl;
    at_hash = refl;
    anchored = inl refl;
  }

  -- No false alarm: whatever was appended and checked before, in any order, a ledger that only this
  -- server wrote passes the check of chain and anchor, from the start or from the checkpoint, and the
  -- check reports the number of all entries.
  pub no_false_alarm :
      (full : Bool) (uses : List Use)
      → ((integrity py sg own pubs full (perform_all py sg key rest uses init_db)).0.valid ≡ true)
        × ((integrity py sg own pubs full (perform_all py sg key rest uses init_db)).0.checked
            ≡ length (perform_all py sg key rest uses init_db).rows)
  no_false_alarm full uses =
      integrity_sound full (perform_all py sg key rest uses init_db)
        (perform_all-IsSound uses init_db init-IsSound)
