-- ===== src/Routes/Panel.antt =====
-- The owner's control panel: what an approval of a held command loses, and what the device list shows.
use domesticoracle.Prelude.{
  ℕ, String, ◌≡◌, refl, sym, ◌∙◌, ap, Option, none, some, List, [], ◌∷◌, ◌++◌, leb, length, arith,
  text_eq, nat_eq, eq_iff, if◌then◌else◌, All,
}
use domesticoracle.Prelude.Int.{ℤ}
use domesticoracle.Prelude.Table.{Table, lookup, put, lookup-put, IsKeyed}
use domesticoracle.Python.{Json, str, get, Num}
use domesticoracle.HomeAssistant.{Entity}
use domesticoracle.Consent.{Store, Setup, Call, held, Answer, answer, request_action, resolve}
use domesticoracle.Consent.Held.{held_then_approved}
use domesticoracle.Agent.{Outside, execute}
use domesticoracle.Routes.Events.{
  Live, queue_size, deliver, on_event, state_payload, refreshed, get_devices,
}
use domesticoracle.Routes.Owner.{control_call, control_work, extra_of}

-- A held command of the control panel that is approved runs without its brightness and temperature,
-- whatever they were: the executor reads only the device and the action.
pub approved_control_without_extra :
    {W : Type 0} (st : Setup) (out : Outside W) (c : Call) (device action : String)
    (brightness : Option ℤ) (temperature : Option Num) (now written : ℕ) (s s' : Store) (w w' : W)
    (a : Answer)
    → request_action st
        (control_call st out c device action (extra_of brightness temperature))
        (control_work st out device action (extra_of brightness temperature))
        s
        w
      ≡ (answer a, (s', w'))
    → a.status ≡ held
    → (resolve st now written (some (execute st.py out)) c.approval_id "approve" s' w').1.1
      ≡ (out.control (str device) (str action) none w).1
unfolding control_call execute get
approved_control_without_extra st out c device action brightness temperature now written s s' w w' a
      asked h =
    let extra = extra_of brightness temperature in
    (held_then_approved st (control_call st out c device action extra)
      (control_work st out device action extra) (execute st.py out) now written s s' w w' a asked
      h).1

-- What becomes of a client's queue.
abbrev pub delivered : String → Option (List String) → Option (List String)
delivered payload none = none
delivered payload (some queue) =
    if leb queue_size (length queue) then none else some (queue ++ payload ∷ [])

deliver-none :
    (payload : String) (id : ℕ) (t : Table ℕ (List String))
    → lookup id t ≡ none
    → lookup id (deliver payload t) ≡ none
unfolding deliver lookup
deliver-none payload id [] h = refl
deliver-none payload id ((k, q) ∷ t) h = ground (arith, deliver-none payload id t)

deliver-lookup :
    (payload : String) (id : ℕ) (t : Table ℕ (List String))
    → IsKeyed t
    → lookup id (deliver payload t) ≡ delivered payload (lookup id t)
unfolding deliver lookup
deliver-lookup payload id [] h = refl
deliver-lookup payload id ((k, q) ∷ t) h =
    ground
      (arith, nat_eq.beq_iff k id, deliver-lookup payload id t h.1, deliver-none payload k t h.0)

-- An event is put last into the queue of every client with room, and a client without room is
-- dropped.
pub event_reaches_clients :
    (dumps_line : Json → String) (e : Entity) (s : Live) (id : ℕ)
    → IsKeyed s.subscribers
    → lookup id (on_event dumps_line e s).subscribers
      ≡ delivered (state_payload dumps_line e) (lookup id s.subscribers)
unfolding on_event
event_reaches_clients dumps_line e s id keyed =
    deliver-lookup (state_payload dumps_line e) id s.subscribers keyed

-- The states that the device list shows of one device.
abbrev Shows : String → String → Entity → Type 0
Shows entity_id state d = d.entity_id ≡ entity_id → d.state ≡ state

refreshed-id : (d : Entity) (cached : Option Entity) → (refreshed d cached).entity_id ≡ d.entity_id
unfolding refreshed
refreshed-id d none = refl
refreshed-id d (some cached) = refl

refreshed-state :
    (d e : Entity) (cache : Table String Entity)
    → Shows e.entity_id e.state (refreshed d (lookup d.entity_id (put e.entity_id e cache)))
unfolding refreshed
refreshed-state d e cache = λ h.
    let same : e.entity_id ≡ d.entity_id = sym h ∙ refreshed-id d _ in
    ap (λ o. (refreshed d o).state)
      (lookup-put e.entity_id d.entity_id e cache
        ∙ ap (λ b. if b then some e else lookup d.entity_id cache)
            ((eq_iff e.entity_id d.entity_id).1 same))

-- After an event every row of its device in the device list shows the state that the event brought,
-- whatever the list was read with.
pub event_shown :
    (dumps_line : Json → String) (e : Entity) (s : Live) (devices : List Entity)
    → All (Shows e.entity_id e.state) (get_devices (on_event dumps_line e s).cache devices)
unfolding on_event get_devices
event_shown dumps_line e s [] = tt
event_shown dumps_line e s (d ∷ devices) =
    (refreshed-state d e s.cache, event_shown dumps_line e s devices)
