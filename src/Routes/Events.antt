-- ===== src/Routes/Events.antt =====
-- backend/main.py: the states that Home Assistant pushes, the clients that wait for them, and the
-- device list with the fresher states laid over it. `dumps_line` is `json.dumps(v)`.
use domesticoracle.Prelude.{
  ℕ, String, Option, none, some, List, [], ◌∷◌, ◌++◌, leb, length, text_eq, nat_eq, if◌then◌else◌,
}
use domesticoracle.Prelude.Table.{Table, lookup, put, erase}
use domesticoracle.Python.{Json, str, obj, dict_of}
use domesticoracle.HomeAssistant.{Entity}

-- `_ha_state_cache` and `_sse_subscribers`: a queue of 200 places for each client.
pub record Live : Type 0 where
  pub cache : Table String Entity
  pub subscribers : Table ℕ (List String)

abbrev pub queue_size : ℕ
queue_size = 200

abbrev pub state_payload : (Json → String) → Entity → String
state_payload dumps_line e = dumps_line (
    obj (
      dict_of (
        ("type", str "state_changed")
        ∷ ("entity_id", str e.entity_id)
        ∷ ("name", str e.name)
        ∷ ("state", str e.state)
        ∷ ("domain", str e.domain)
        ∷ ("attributes", obj e.attributes)
        ∷ [])))

-- A client whose queue is full is given up.
unfoldable pub deliver : String → Table ℕ (List String) → Table ℕ (List String)
deliver payload [] = []
deliver payload ((id, queue) ∷ rest) =
    let others = deliver payload rest in
    if leb queue_size (length queue) then others else (id, queue ++ payload ∷ []) ∷ others

-- `_ha_event_handler`
unfoldable pub on_event : (Json → String) → Entity → Live → Live
unfolding deliver
on_event dumps_line e s = record {
  cache = put e.entity_id e s.cache;
  subscribers = deliver (state_payload dumps_line e) s.subscribers;
}

-- A client that connects, and one that leaves.
unfoldable pub subscribe : ℕ → Live → Live
subscribe id s = record s { subscribers = (id, []) ∷ s.subscribers }

unfoldable pub unsubscribe : ℕ → Live → Live
unsubscribe id s = record s { subscribers = erase id s.subscribers }

-- `q.get()` of a client, where something waits.
unfoldable pub take_next : List String → Option (String × List String)
take_next [] = none
take_next (payload ∷ queue) = some (payload, queue)

unfoldable pub refreshed : Entity → Option Entity → Entity
refreshed d none = d
refreshed d (some cached) = record d { state = cached.state; attributes = cached.attributes }

-- GET /devices
unfoldable pub get_devices : Table String Entity → List Entity → List Entity
unfolding refreshed
get_devices cache [] = []
get_devices cache (d ∷ devices) = refreshed d (lookup d.entity_id cache) ∷ get_devices cache devices
