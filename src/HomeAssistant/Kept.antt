-- ===== src/HomeAssistant/Kept.antt =====
-- backend/home_assistant.py: the listener does not stop, and what it hands on.
use domesticoracle.Prelude.{
  String, ◌≡◌, ap, sym, subst, Bool, true, false, Option, none, some, List, [], ◌∷◌, if◌then◌else◌,
  inl, inr, All,
}
use domesticoracle.Python.{Json, obj}
use domesticoracle.HomeAssistant.Catalog.{Entity}
use domesticoracle.HomeAssistant.Listener.{
  Phase, connecting, greeting, authenticating, listening, pausing, stopped, Happening, connected,
  received, failed, woken, cancelled, Moved, to, broken, has_type, greeted, admitted, heard, react,
}
use domesticoracle.HomeAssistant.Moves.{
  Log, phase_of, seen_of, with_seen, run, run-Goes, IsHeard, heard-IsHeard, Handed, IsDevice,
}

module _ (split_dot : String → Option (String × String)) (token : String) where
  -- A move that only waits for what comes next, and hands nothing on.
  abbrev pub IsAlive : Phase → Type 0
  IsAlive stopped = ⊥
  IsAlive p = Unit

  record IsQuiet (m : Moved) : Type 0 where
    alive : IsAlive m.phase
    seen : (Handed split_dot token) m.seen

  if-IsQuiet : (b : Bool) (m n : Moved) → IsQuiet m → IsQuiet n → IsQuiet (if b then m else n)
  if-IsQuiet true m n hm hn = hm
  if-IsQuiet false m n hm hn = hn

  abbrev quiet : (m : Moved) → IsAlive m.phase → (Handed split_dot token) m.seen → IsQuiet m
  quiet m p s = record { alive = p; seen = s }

  greeted-IsQuiet : (v : Option Json) → IsQuiet (greeted split_dot token v)
  unfolding greeted
  greeted-IsQuiet (some (obj msg)) =
      if-IsQuiet (has_type "auth_required" msg) _ _ (record { alive = tt; seen = tt })
        (quiet (to (pausing 10)) tt tt)
  greeted-IsQuiet v = quiet broken tt tt

  admitted-IsQuiet : (v : Option Json) → IsQuiet (admitted split_dot token v)
  unfolding admitted
  admitted-IsQuiet (some (obj msg)) =
      if-IsQuiet (has_type "auth_ok" msg) _ _ (record { alive = tt; seen = tt })
        (quiet (to (pausing 30)) tt tt)
  admitted-IsQuiet v = quiet broken tt tt

  heard-IsQuiet : (m : Moved) → (IsHeard split_dot token) m → IsQuiet m
  heard-IsQuiet m h = record {
    alive = elim h.phase [ inl e ↦ subst IsAlive (sym e) tt | inr e ↦ subst IsAlive (sym e) tt ];
    seen = h.seen;
  }

  abbrev pub IsUncancelled : Happening → Type 0
  IsUncancelled cancelled = ⊥
  IsUncancelled h = Unit

  abbrev Waits : Option Moved → Type 0
  Waits none = Unit
  Waits (some m) = IsQuiet m

  react-Waits : (p : Phase) (h : Happening) → IsUncancelled h → Waits (react split_dot token p h)
  unfolding react
  react-Waits greeting (received v) u = greeted-IsQuiet v
  react-Waits authenticating (received v) u = admitted-IsQuiet v
  react-Waits listening (received v) u =
      heard-IsQuiet (heard split_dot token v) ((heard-IsHeard split_dot token) v)
  react-Waits connecting connected u = quiet (to greeting) tt tt
  react-Waits (pausing n) woken u = quiet (to connecting) tt tt
  react-Waits connecting failed u = quiet broken tt tt
  react-Waits greeting failed u = quiet broken tt tt
  react-Waits authenticating failed u = quiet broken tt tt
  react-Waits listening failed u = quiet broken tt tt
  react-Waits p cancelled u = absurd u
  react-Waits p h u = tt

  with-seen :
      (o : Option Entity) (es : List Entity)
      → (Handed split_dot token) o
      → All (IsDevice split_dot token) es
      → All (IsDevice split_dot token) (with_seen o es)
  with-seen none es ho he = he
  with-seen (some e) es ho he = (ho, he)

  run-kept :
      (p : Phase) (hs : List Happening) (log : Log)
      → IsAlive p
      → All IsUncancelled hs
      → (run split_dot token) p hs ≡ some log
      → IsAlive log.phase × All (IsDevice split_dot token) log.seen
  unfolding run
  run-kept p [] log alive all h = (
    subst IsAlive (ap phase_of h) alive,
    subst (All (IsDevice split_dot token)) (ap seen_of h) tt,
  )
  run-kept p (x ∷ hs) log alive all h =
      let g = (run-Goes split_dot token) (react split_dot token p x) hs log h in
      let q = subst Waits g.first (react-Waits p x all.0) in
      let (phase, seen) = run-kept g.move.phase hs g.rest q.alive all.1 g.later in
      (
        subst IsAlive (sym g.phase) phase,
        subst (All (IsDevice split_dot token)) (sym g.seen)
            (with-seen g.move.seen g.rest.seen q.seen seen),
      )

  -- A listener that is not cancelled never stops, whatever the server sends and however often the
  -- connection fails, and every device that it hands on is of a controllable domain, its own.
  pub listener_kept :
      (hs : List Happening) (log : Log)
      → All IsUncancelled hs
      → (run split_dot token) connecting hs ≡ some log
      → IsAlive log.phase × All (IsDevice split_dot token) log.seen
  listener_kept hs log all h = run-kept connecting hs log tt all h
