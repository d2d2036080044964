-- ===== src/HomeAssistant/Handshake.antt =====
-- backend/home_assistant.py: what brings the listener to where it is.
use domesticoracle.Prelude.{
  ◌≤◌, String, ◌≡◌, refl, ap, sym, subst, true, Option, none, some, List, [], ◌∷◌, ◌++◌, arith,
  Bool-cases, inl, inr, All,
}
use domesticoracle.Python.{Json, obj}
use domesticoracle.HomeAssistant.Listener.{
  Phase, connecting, greeting, authenticating, listening, pausing, Happening, connected, received,
  Moved, has_type, greeted, admitted, heard, react,
}
use domesticoracle.HomeAssistant.Moves.{Log, phase_of, run, run-Goes, IsHeard, heard-IsHeard}

abbrev pub newest_first : List Happening → List Happening → List Happening
newest_first [] past = past
newest_first (h ∷ hs) past = newest_first hs (h ∷ past)

abbrev pub IsText : Happening → Type 0
IsText (received v) = Unit
IsText h = ⊥

-- A message of this type has arrived.
abbrev Says : String → Happening → Type 0
Says wanted (received (some (obj msg))) = has_type wanted msg ≡ true
Says wanted h = ⊥

-- What has happened, the newest first, where the task is in a phase: it listens only after the
-- server asked for the token and accepted it, on this connection, which has not failed since.
abbrev pub History : Phase → List Happening → Type 0
History greeting past = (rest : List Happening) × (past ≡ connected ∷ rest)
History authenticating past =
    (asked : Happening) × (rest : List Happening) × (past ≡ asked ∷ connected ∷ rest)
    × Says "auth_required" asked
History listening past =
    (texts : List Happening) × (accepted asked : Happening) × (rest : List Happening) × (past
      ≡ texts ++ accepted ∷ asked ∷ connected ∷ rest)
    × All IsText texts
    × Says "auth_ok" accepted
    × Says "auth_required" asked
History (pausing n) past = n ≤ 30
History p past = Unit

module _ (split_dot : String → Option (String × String)) (token : String) where
  greeted-History :
      (v : Option Json) (past : List Happening)
      → History greeting past
      → History (greeted split_dot token v).phase (received v ∷ past)
  unfolding greeted
  greeted-History (some (obj msg)) past (rest, same) =
      elim (Bool-cases (has_type "auth_required" msg)) [
        | inl e ↦
            rw e (received (some (obj msg)), rest, ap (λ p. received (some (obj msg)) ∷ p) same, e)
        | inr e ↦ rw e (omega arith)
      ]
  greeted-History v past h = omega arith

  admitted-History :
      (v : Option Json) (past : List Happening)
      → History authenticating past
      → History (admitted split_dot token v).phase (received v ∷ past)
  unfolding admitted
  admitted-History (some (obj msg)) past (asked, rest, same, said) =
      elim (Bool-cases (has_type "auth_ok" msg)) [
        | inl e ↦ rw e (
          [],
          received (some (obj msg)),
          asked,
          rest,
          ap (λ p. received (some (obj msg)) ∷ p) same,
          tt,
          e,
          said,
        )
        | inr e ↦ rw e (omega arith)
      ]
  admitted-History v past h = omega arith

  heard-History :
      (m : Moved) (v : Option Json) (past : List Happening)
      → (IsHeard split_dot token) m
      → History listening past
      → History m.phase (received v ∷ past)
  heard-History m v past heard (texts, accepted, asked, rest, same, all, ok, said) =
      elim heard.phase [
        | inl e ↦
            subst (λ p. History p (received v ∷ past)) (sym e)
              (
                received v ∷ texts,
                accepted,
                asked,
                rest,
                ap (λ p. received v ∷ p) same,
                (tt, all),
                ok,
                said,
              )
        | inr e ↦ subst (λ p. History p (received v ∷ past)) (sym e) (omega arith)
      ]

  -- The phase after a move is that of `m`.
  abbrev Leads : Phase → List Happening → Option Moved → Type 0
  Leads p past none = Unit
  Leads p past (some m) = History m.phase past

  react-History :
      (p : Phase) (h : Happening) (past : List Happening)
      → History p past
      → Leads p (h ∷ past) (react split_dot token p h)
  unfolding react
  react-History connecting connected past k = (past, refl)
  react-History greeting (received v) past k = greeted-History v past k
  react-History authenticating (received v) past k = admitted-History v past k
  react-History listening (received v) past k =
      heard-History (heard split_dot token v) v past ((heard-IsHeard split_dot token) v) k
  react-History p h past k = ground arith

  run-History :
      (p : Phase) (hs past : List Happening) (log : Log)
      → History p past
      → (run split_dot token) p hs ≡ some log
      → History log.phase (newest_first hs past)
  unfolding run
  run-History p [] past log k h = subst (λ q. History q past) (ap phase_of h) k
  run-History p (x ∷ hs) past log k h =
      let g = (run-Goes split_dot token) (react split_dot token p x) hs log h in
      subst (λ q. History q (newest_first hs (x ∷ past))) (sym g.phase)
        (run-History g.move.phase hs (x ∷ past) g.rest
          (subst (Leads p (x ∷ past)) g.first (react-History p x past k)) g.later)

  -- Where the listener is after any run from its start: it listens only after the server of this
  -- connection asked for the token and accepted it, with nothing but texts since; and no pause is
  -- longer than 30 seconds.
  pub listener-History :
      (hs : List Happening) (log : Log)
      → (run split_dot token) connecting hs ≡ some log
      → History log.phase (newest_first hs [])
  listener-History hs log h = run-History connecting hs [] log tt h
