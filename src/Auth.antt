-- ===== src/Auth.antt =====
-- backend/auth.py: the owner's passphrase, its file, and the check of a submitted one. `drawn` is the
-- token that crypto.new_token would make.
use domesticoracle.Prelude.{
  ℕ, String, ◌≡◌, Bool, true, false, Option, none, some, ◌==◌, text_eq, if◌then◌else◌, arith,
}
use domesticoracle.Python.{Python}
use domesticoracle.Sessions.{Sessions, validate}

-- ORA_OWNER_TOKEN, where an unset variable is the empty text, the passphrase in memory, and
-- owner.token.
pub record Owner : Type 0 where
  pub env : String
  pub passphrase : Option String
  pub token_file : Option String

module _ (py : Python) (drawn : String) where
  unfoldable pub load_token : Owner → String × Owner
  load_token s =
      if s.env == ""
      then elim s.token_file [
        | none ↦ (drawn, record s { passphrase = some drawn; token_file = some drawn })
        | some text ↦ (py.strip text, record s { passphrase = some (py.strip text) })
      ]
      else (py.strip s.env, record s { passphrase = some (py.strip s.env) })

  unfoldable pub owner_token : Owner → String × Owner
  unfolding load_token
  owner_token s = elim s.passphrase [ some passphrase ↦ (passphrase, s) | none ↦ load_token s ]

  unfoldable pub verify_passphrase : String → Owner → Bool × Owner
  unfolding owner_token
  verify_passphrase submitted s =
      if submitted == ""
      then (false, s)
      else (let (token, s') = owner_token s in (py.strip submitted == token, s'))

-- `none` is the 401.
unfoldable pub require_owner : Option String → ℕ → Sessions → Option Bool × Sessions
unfolding validate
require_owner session now t =
    let (ok, t') = validate session now t in (if ok then some true else none, t')

-- A new process, which has the environment and the file of the one before.
abbrev pub restart : Owner → Owner
restart s = record s { passphrase = none }

-- The passphrase does not change, if a token that is drawn has no blanks at its ends: in the same
-- process a later call gives the one of the first call, whatever would be drawn, and so does the first
-- call after a restart, which reads the environment or the file.
pub owner_token_stable :
    (py : Python) (drawn later : String) (s : Owner)
    → s.passphrase ≡ none
    → py.strip drawn ≡ drawn
    → let (token, s') = owner_token py drawn s in
      ((owner_token py later s').0 ≡ token) × ((owner_token py later (restart s')).0 ≡ token)
unfolding owner_token load_token
owner_token_stable py drawn later s fresh clean = (ground arith, ground arith)
