-- ===== src/Sessions/Expiry.antt =====
-- What the session store promises: who is let in, and when a session ends.
use domesticoracle.Prelude.{
  ℕ, ◌+◌, ◌≤◌, String, ◌≡◌, ◌≢◌, refl, true, false, Option, none, some, List, [], ◌∷◌, arith,
  text_eq, eq_iff, ltb, inl, inr, Option-cases, ◌↔◌,
}
use domesticoracle.Prelude.Table.{
  lookup, IsKeyed, lookup-put, lookup-update, lookup-erase, lookup-delete_where,
  lookup-delete_where-none, eq_refl,
}
use domesticoracle.Sessions.{Sessions, session_ttl, create, validate, revoke, prune}

-- A token is let in exactly while it is stored with an expiry that has not passed.
pub validate_iff :
    (token : String) (now : ℕ) (t : Sessions)
    → token ≢ ""
    → ((validate (some token) now t).0 ≡ true)
      ↔ ((expires_at : ℕ) × (lookup token t ≡ some expires_at) × (now ≤ expires_at))
unfolding validate
validate_iff token now t h = elim (Option-cases (lookup token t)) [
  | inl missing ↦ (λ v. ground (arith, eq_iff token ""), λ w. cc (w.1))
  | inr (x, e) ↦
      (λ v. (x, e, ground (arith, eq_iff token "")), λ w. ground (arith, eq_iff token "", w.1, w.2))
]

-- Pruning is invisible: what a later request is told does not depend on it.
pub validate-prune :
    (session : Option String) (now later : ℕ) (t : Sessions)
    → IsKeyed t
    → now ≤ later
    → (validate session later (prune now t)).0 ≡ (validate session later t).0
unfolding validate prune
validate-prune none now later t h le = refl
validate-prune (some token) now later t h le =
    ground (arith, lookup-delete_where (λ (x : ℕ). ltb x now) token t h, eq_iff token "")

-- What reaches the table: logins with a token and a time, requests, logouts and start-ups.
pub data Event : Type 0 where
  login : String → ℕ → Event
  request : Option String → ℕ → Event
  logout : String → Event
  startup : ℕ → Event

pub step : Event → Sessions → Sessions
step (login token now) t = elim (create token now t) [ none ↦ t | some t' ↦ t' ]
step (request session now) t = (validate session now t).1
step (logout token) t = revoke token t
step (startup now) t = prune now t

pub run : List Event → Sessions → Sessions
run [] t = t
run (e ∷ events) t = run events (step e t)

abbrev pub NotLogin : String → Event → Type 0
NotLogin token (login s _) = s ≢ token
NotLogin token _ = Unit

abbrev pub NoLogin : String → List Event → Type 0
NoLogin token [] = Unit
NoLogin token (e ∷ events) = NotLogin token e × NoLogin token events

step_absent :
    (token : String) (e : Event) (t : Sessions)
    → NotLogin token e
    → lookup token t ≡ none
    → lookup token (step e t) ≡ none
unfolding step create validate revoke prune
step_absent token (login s now) t h a =
    ground (arith, eq_iff s token, lookup-put s token (now + session_ttl) t)
step_absent token (request none now) t h a = a
step_absent token (request (some s) now) t h a =
    ground (arith, lookup-erase s token t, lookup-update s token (λ (_ : ℕ). now + session_ttl) t)
step_absent token (logout s) t h a = ground (arith, lookup-erase s token t)
step_absent token (startup now) t h a = lookup-delete_where-none (λ (x : ℕ). ltb x now) token t a

run_absent :
    (token : String) (events : List Event) (t : Sessions)
    → NoLogin token events
    → lookup token t ≡ none
    → lookup token (run events t) ≡ none
unfolding run
run_absent token [] t h a = a
run_absent token (e ∷ events) t h a =
    run_absent token events (step e t) h.1 (step_absent token e t h.0 a)

-- After a logout the token is refused for good, whatever happens next, unless it is drawn again.
pub logged_out_stays_out :
    (token : String) (events : List Event) (now : ℕ) (t : Sessions)
    → NoLogin token events
    → (validate (some token) now (run events (revoke token t))).0 ≡ false
unfolding validate revoke
logged_out_stays_out token events now t h =
    ground
      (arith, run_absent token events (revoke token t) h, lookup-erase token token t, eq_refl token)

-- The token's requests at these times, each at most one window after the one before.
abbrev pub IsPaced : ℕ → List ℕ → Type 0
IsPaced last [] = Unit
IsPaced last (now ∷ times) = (now ≤ last + session_ttl) × IsPaced now times

abbrev pub AllIn : String → List ℕ → Sessions → Type 0
AllIn token [] t = Unit
AllIn token (now ∷ times) t =
    ((validate (some token) now t).0 ≡ true) × AllIn token times (validate (some token) now t).1

validate_extends :
    (token : String) (last now : ℕ) (t : Sessions)
    → token ≢ ""
    → lookup token t ≡ some (last + session_ttl)
    → now ≤ last + session_ttl
    → ((validate (some token) now t).0 ≡ true)
      × (lookup token (validate (some token) now t).1 ≡ some (now + session_ttl))
unfolding validate
validate_extends token last now t h e le = ground (
  arith,
  eq_iff token "",
  eq_refl token,
  lookup-update token token (λ (_ : ℕ). now + session_ttl) t,
)

stays_in :
    (token : String) (last : ℕ) (times : List ℕ) (t : Sessions)
    → token ≢ ""
    → lookup token t ≡ some (last + session_ttl)
    → IsPaced last times
    → AllIn token times t
stays_in token last [] t h e p = tt
stays_in token last (now ∷ times) t h e p =
    let (inside, extended) = validate_extends token last now t h e p.0 in
    (inside, stays_in token now times (validate (some token) now t).1 h extended p.1)

-- The window slides: after a login every request of the token is let in as long as no two follow
-- one another by more than the window.
pub create_stays_in :
    (token : String) (start : ℕ) (times : List ℕ) (t t' : Sessions)
    → token ≢ ""
    → create token start t ≡ some t'
    → IsPaced start times
    → AllIn token times t'
unfolding create
create_stays_in token start times t t' h c p =
    stays_in token start times t' h
      (ground (arith, lookup-put token token (start + session_ttl) t, eq_refl token)) p
