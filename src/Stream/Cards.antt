-- ===== src/Stream/Cards.antt =====
-- Which held actions the chat shows a card for.
use Prim.Native.String.{◌++◌ as append_text}
use text.Mathlib.TextLemmas.{append_assoc}
use domesticoracle.Prelude.{
  String, ◌≡◌, refl, ◌∙◌, ap, sym, Option, [], ◌∷◌, Bool, false, true, text_eq, if◌then◌else◌,
}
use domesticoracle.Python.{Python, str, obj, end, field, get, take_text, concat}
use domesticoracle.Policy.{is_within}
use domesticoracle.Consent.{Answer, held}
use domesticoracle.Agent.{
  Tool, control_device, make_purchase, send_message, send_email, reply_to_email, told_as, action_of,
  text_or_none, held_close,
}
use domesticoracle.Stream.Frames.{
  Event, event, approval, held_mark, translate, tool_frames, message_frames, or_unknown,
}
use domesticoracle.Stream.Search.{is_within-prefix, is_within-after, lacks}

-- The event in which the runtime reports what a tool told the agent.
abbrev pub tool_event : String → String → Event
tool_event name content =
    event (str "messages-tuple") (
      obj (field "type" (str "tool") (field "content" (str content) (field "name" (str name) end))))

abbrev pub is_control : Tool → Bool
is_control (control_device device action) = true
is_control t = false

-- The part of a held answer that follows its fixed opening.
abbrev pub held_rest : Tool → Answer → String
held_rest t a = concat (text_or_none a.approval_id ∷ "). Reason: " ∷ a.reason ∷ held_close t ∷ [])

module _ (py : Python) where
  control_mark :
      (device action : String) (a : Answer)
      → is_within held_mark (told_as py (control_device device action) a held) ≡ true
  unfolding told_as
  control_mark device action a =
      let rest = held_rest (control_device device action) a in
      ap (is_within held_mark) (
        sym (append_assoc "Held" " for owner approval (approval #" rest)
        ∙ append_assoc held_mark " (approval #" rest)
      ∙ is_within-prefix held_mark (append_text " (approval #" rest)

  -- Past an opening without a capital H, the mark is found only in the rest.
  other_mark :
      (noun rest : String)
      → lacks "H" noun ≡ true
      → is_within held_mark (append_text noun (append_text " for owner approval (approval #" rest))
        ≡ is_within held_mark rest
  other_mark noun rest h =
      is_within-after noun _ "H" "eld for owner approval" h
      ∙ is_within-after " for owner approval (approval #" rest "H" "eld for owner approval" refl

  no_mark :
      (t : Tool) (a : Answer)
      → is_control t ≡ false
      → is_within held_mark (held_rest t a) ≡ false
      → is_within held_mark (told_as py t a held) ≡ false
  unfolding told_as
  no_mark (control_device device action) a other h = cc
  no_mark (make_purchase item amount vendor) a other h = other_mark "Purchase held" _ refl ∙ h
  no_mark (send_message recipient body) a other h = other_mark "Message held" _ refl ∙ h
  no_mark (send_email to subject body) a other h = other_mark "Email held" _ refl ∙ h
  no_mark (reply_to_email email_id body) a other h = other_mark "Reply held" _ refl ∙ h

  module _ (approval_ref : String → Option String) where
    -- A held device command gives exactly one card, with the id that the pattern finds in the
    -- agent's answer and the first 300 characters of it.
    pub held_control_card :
        (device action : String) (a : Answer)
        → let told = told_as py (control_device device action) a held in
          translate py approval_ref (tool_event "control_device" told)
          ≡ approval (approval_ref told) (str "control_device") (take_text 300 told) ∷ []
    unfolding translate message_frames tool_frames get
    held_control_card device action a =
        let told = told_as py (control_device device action) a held in
        ap
          (λ b.
            if b
            then approval (approval_ref told) (str "control_device") (take_text 300 told) ∷ []
            else [])
          (control_mark device action a)

    -- A held purchase, message, email or reply gives no card at all, unless the words that mark a
    -- device command stand in its id, its reason or the closing words.
    pub held_others_no_card :
        (t : Tool) (a : Answer)
        → is_control t ≡ false
        → is_within held_mark (held_rest t a) ≡ false
        → translate py approval_ref (tool_event (action_of t) (told_as py t a held)) ≡ []
    unfolding translate message_frames tool_frames get
    held_others_no_card t a other h =
        let told = told_as py t a held in
        ap
          (λ b.
            if b
            then approval (approval_ref told) (or_unknown (str (action_of t))) (take_text 300 told)
              ∷ []
            else [])
          (no_mark t a other h)
