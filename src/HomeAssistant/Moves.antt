-- ===== src/HomeAssistant/Moves.antt =====
-- backend/home_assistant.py: the moves of the listener's loop, and the runs that they make.
use domesticoracle.Prelude.{
  String, ◌≡◌, refl, ap, sym, Bool, true, false, Option, none, some, List, [], ◌∷◌, ◌++◌, ◌⊎◌,
  arith, if◌then◌else◌, inl, inr,
}
use domesticoracle.Python.{Json, str, obj, Dict, end, get_default, truthy}
use domesticoracle.HomeAssistant.Catalog.{Entity}
use domesticoracle.HomeAssistant.{domain_of}
use domesticoracle.HomeAssistant.Live.{is_controllable, device_of, device_as, named}
use domesticoracle.HomeAssistant.Listener.{
  Phase, listening, pausing, stopped, Happening, Moved, to, broken, told, has_type, tell, changed,
  event_data, event_in, heard, react,
}

-- What a run of the task leaves: where it is, what it sent, and the devices that it handed on.
pub record Log : Type 0 where
  pub phase : Phase
  pub sent : List Json
  pub seen : List Entity

abbrev pub with_seen : Option Entity → List Entity → List Entity
with_seen none es = es
with_seen (some e) es = e ∷ es

abbrev pub logged : Moved → Option Log → Option Log
logged m none = none
logged m (some log) =
    some (record { phase = log.phase; sent = m.sent ++ log.sent; seen = with_seen m.seen log.seen })

abbrev pub phase_of : Option Log → Phase
phase_of none = stopped
phase_of (some log) = log.phase

abbrev pub seen_of : Option Log → List Entity
seen_of none = []
seen_of (some log) = log.seen

module _ (split_dot : String → Option (String × String)) (token : String) where
  unfoldable pub run : Phase → List Happening → Option Log
  unfolding react
  run p [] = some (record { phase = p; sent = []; seen = [] })
  run p (h ∷ hs) = elim (react split_dot token p h) [
    | none ↦ none
    | some m ↦ logged m (run m.phase hs)
  ]

  -- A run that is a run starts with a move, after which it goes on.
  pub record Goes (o : Option Moved) (hs : List Happening) (log : Log) : Type 0 where
    pub move : Moved
    pub first : o ≡ some move
    pub rest : Log
    pub later : run move.phase hs ≡ some rest
    pub phase : log.phase ≡ rest.phase
    pub seen : log.seen ≡ with_seen move.seen rest.seen

  logged-Goes :
      (m : Moved) (hs : List Happening) (o : Option Log) (log : Log)
      → run m.phase hs ≡ o
      → logged m o ≡ some log
      → Goes (some m) hs log
  logged-Goes m hs none log e h = absurd (ground arith)
  logged-Goes m hs (some rest) log e h = record {
    move = m;
    first = refl;
    rest = rest;
    later = e;
    phase = ap phase_of (sym h);
    seen = ap seen_of (sym h);
  }

  pub run-Goes :
      (o : Option Moved) (hs : List Happening) (log : Log)
      → elim o [ none ↦ none | some m ↦ logged m (run m.phase hs) ] ≡ some log
      → Goes o hs log
  run-Goes none hs log h = absurd (ground arith)
  run-Goes (some m) hs log h = logged-Goes m hs (run m.phase hs) log refl h

  -- What a device that is handed on is.
  abbrev pub IsDevice : Entity → Type 0
  IsDevice e = (is_controllable e.domain ≡ true) × (domain_of split_dot e.entity_id ≡ e.domain)

  abbrev pub Handed : Option Entity → Type 0
  Handed none = Unit
  Handed (some e) = IsDevice e

  -- A move that goes on listening or breaks off.
  pub record IsHeard (m : Moved) : Type 0 where
    pub phase : (m.phase ≡ listening) ⊎ (m.phase ≡ pausing 5)
    pub seen : Handed m.seen

  pub going : IsHeard (to listening)
  going = record { phase = inl refl; seen = tt }

  pub breaking : IsHeard broken
  breaking = record { phase = inr refl; seen = tt }

  either :
      (b : Bool) (m n : Moved)
      → (b ≡ true → IsHeard m)
      → (b ≡ false → IsHeard n)
      → IsHeard (if b then m else n)
  either true m n hm hn = hm refl
  either false m n hm hn = hn refl

  tell-IsHeard : (o : Option Entity) → Handed o → IsHeard (tell split_dot token o)
  tell-IsHeard none h = breaking
  tell-IsHeard (some e) h = record { phase = inl refl; seen = h }

  module _ (eid domain : String) (p : is_controllable domain ≡ true)
      (q : domain_of split_dot eid ≡ domain) where
    named-Handed : (name state : Json) (raw : Dict) → Handed (named name state raw eid domain)
    named-Handed (str name) (str state) raw = (p, q)
    named-Handed (str name) state raw = tt
    named-Handed name state raw = tt

    device_as-Handed : (s : Dict) (v : Json) → Handed (device_as s eid domain v)
    device_as-Handed s (obj raw) = named-Handed _ _ raw
    device_as-Handed s v = tt

    told-IsHeard : (v : Json) → IsHeard (told split_dot token eid domain v)
    unfolding told device_of
    told-IsHeard (obj ns) =
        tell-IsHeard (device_of ns eid domain)
          (device_as-Handed ns (get_default "attributes" (obj end) ns))
    told-IsHeard v = breaking

  changed-IsHeard : (eid new_state : Json) → IsHeard (changed split_dot token eid new_state)
  unfolding changed
  changed-IsHeard (str eid) v =
      either (truthy v) _ _
        (λ set.
          either (is_controllable (domain_of split_dot eid)) _ _
            (λ p. told-IsHeard eid (domain_of split_dot eid) p refl v) (λ _. going))
        (λ _. going)
  changed-IsHeard eid v = either (truthy v) _ _ (λ _. breaking) (λ _. going)

  event_data-IsHeard : (v : Json) → IsHeard (event_data split_dot token v)
  unfolding event_data
  event_data-IsHeard (obj d) =
      changed-IsHeard (get_default "entity_id" (str "") d) (get_default "new_state" (obj end) d)
  event_data-IsHeard v = breaking

  event_in-IsHeard : (v : Json) → IsHeard (event_in split_dot token v)
  unfolding event_in
  event_in-IsHeard (obj event) = event_data-IsHeard (get_default "data" (obj end) event)
  event_in-IsHeard v = breaking

  pub heard-IsHeard : (v : Option Json) → IsHeard (heard split_dot token v)
  unfolding heard
  heard-IsHeard (some (obj msg)) =
      either (has_type "event" msg) _ _ (λ _. event_in-IsHeard (get_default "event" (obj end) msg))
        (λ _. going)
  heard-IsHeard v = breaking
