-- ===== src/Stream/Frames.antt =====
-- backend/domestic_oracle/stream.py: `_translate`. `approval_ref` is
-- `re.search(r"approval #(apr_[0-9a-f]+)", s)` with its group.
use domesticoracle.Prelude.{
  String, Bool, false, ◌&&◌, Option, List, [], ◌∷◌, ◌++◌, ◌==◌, text_eq, if◌then◌else◌,
}
use domesticoracle.Python.{
  Python, Json, str, arr, obj, Items, nil, item, Dict, get_default, get_json, truthy, take_text,
}
use domesticoracle.Policy.{is_within, text_of}

-- An event of the runtime: an object with the two attributes (null where one is absent), or a dict.
pub data Event : Type 0 where
  event : (type body : Json) → Event
  mapping : Dict → Event

-- What the frontend gets.
pub data Frame : Type 0 where
  text : Json → Frame
  approval : (id : Option String) (action : Json) (summary : String) → Frame

abbrev pub event_type : Event → Json
event_type (event type body) = type
event_type (mapping d) = get_default "type" (str "") d

abbrev pub event_body : Event → Json
event_body (event type body) = body
event_body (mapping d) = get_json "data" d

-- `v == s`
abbrev pub is_str : String → Json → Bool
is_str s (str t) = t == s
is_str s v = false

abbrev pub or_unknown : Json → Json
or_unknown v = if truthy v then v else str "unknown"

-- The text of a block of type "text", if it has one.
abbrev block_frames : Json → List Frame
block_frames (obj block) =
    let body = get_default "text" (str "") block in
    if is_str "text" (get_json "type" block) && truthy body then text body ∷ [] else []
block_frames v = []

unfoldable pub blocks_frames : Items → List Frame
blocks_frames nil = []
blocks_frames (item block rest) = block_frames block ++ blocks_frames rest

unfoldable pub ai_frames : Json → List Frame
unfolding blocks_frames
ai_frames (str s) = if s == "" then [] else text (str s) ∷ []
ai_frames (arr blocks) = blocks_frames blocks
ai_frames v = []

abbrev pub held_mark : String
held_mark = "Held for owner approval"

module _ (py : Python) (approval_ref : String → Option String) where
  -- A tool's answer gives a card where it says that the action is held.
  unfoldable pub tool_frames : String → Json → List Frame
  tool_frames content name =
      if is_within held_mark content
      then approval (approval_ref content) (or_unknown name) (take_text 300 content) ∷ []
      else []

  unfoldable pub message_frames : Json → List Frame
  unfolding ai_frames tool_frames
  message_frames (obj d) =
      let type = get_default "type" (str "") d in
      if is_str "ai" type
      then ai_frames (get_default "content" (str "") d)
      else if is_str "tool" type
      then tool_frames (text_of py (get_default "content" (str "") d)) (get_json "name" d)
      else []
  message_frames v = []

  unfoldable pub translate : Event → List Frame
  unfolding message_frames
  translate e =
      if is_str "end" (event_type e)
      then []
      else if is_str "messages-tuple" (event_type e)
      then message_frames (event_body e)
      else []

  -- The frames of a sequence of events, in order.
  abbrev pub frames_of : List Event → List Frame
  frames_of [] = []
  frames_of (e ∷ events) = translate e ++ frames_of events
