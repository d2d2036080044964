-- ===== src/HomeAssistant/Caught.antt =====
-- backend/home_assistant.py: what a command to a live instance gives where requests fail.
use domesticoracle.Prelude.{
  String, ◌≡◌, refl, ap, sym, ◌∙◌, subst, Bool, true, false, Option, none, some, List,
  if◌then◌else◌, ◌==◌, text_eq,
}
use domesticoracle.Python.{Python, Json, Dict}
use domesticoracle.Consent.{Effect, returned, raised}
use domesticoracle.HomeAssistant.Catalog.{Entity}
use domesticoracle.HomeAssistant.{match_entity, service_for}
use domesticoracle.HomeAssistant.Live.{
  Page, page, url_error, other_error, Got, value, caught, uncaught, Open, read_page, ha_request,
  live_list, live_control, seen_devices, as_effect, live_service, live_found, live_among,
  control_live, is_now, service_path, service_payload,
}

-- The exceptions that the module handles.
abbrev pub IsHandled : Page → Type 0
IsHandled (other_error error) = ⊥
IsHandled p = Unit

abbrev pub Tells : Effect → Type 0
Tells (returned text) = Unit
Tells (raised error) = ⊥

abbrev IsKnown : {A : Type 0} → Got A → Type 0
IsKnown (uncaught error) = ⊥
IsKnown g = Unit

module _ (py : Python) (split_dot : String → Option (String × String)) where
  parsed-IsKnown :
      (o : Option Json) → IsKnown (elim o [ none ↦ caught "not JSON" | some v ↦ value v ])
  parsed-IsKnown none = tt
  parsed-IsKnown (some v) = tt

  if-IsKnown :
      {A : Type 0} (b : Bool) (x y : Got A) → IsKnown x → IsKnown y → IsKnown (if b then x else y)
  if-IsKnown true x y hx hy = hx
  if-IsKnown false x y hx hy = hy

  read_page-IsKnown : (p : Page) → IsHandled p → IsKnown (read_page py split_dot p)
  unfolding read_page
  read_page-IsKnown (page body) h =
      if-IsKnown (py.strip body == "") _ _ tt (parsed-IsKnown (py.loads body))
  read_page-IsKnown (url_error error) h = tt
  read_page-IsKnown (other_error error) h = absurd h

  module _ {W : Type 0} (open_url : Open W)
      (handled : (verb path : String) (payload : Option Json) (w : W)
        → IsHandled (open_url verb path payload w).0) where
    as_effect-Tells :
        (entity : Entity) (service : String) (g : Got Json)
        → IsKnown g
        → Tells
            (as_effect py split_dot open_url entity (is_now py split_dot open_url entity service g))
    as_effect-Tells entity service (value v) h = tt
    as_effect-Tells entity service (caught error) h = tt
    as_effect-Tells entity service (uncaught error) h = absurd h

    service-Tells :
        (entity : Entity) (action : String) (extra : Option Dict) (service : Option String) (w : W)
        → Tells (live_service py split_dot open_url entity action extra service w).0
    unfolding live_service live_control ha_request
    service-Tells entity action extra none w = tt
    service-Tells entity action extra (some service) w = as_effect-Tells entity service _ (
        read_page-IsKnown _ (
          handled "POST" (service_path py split_dot open_url entity service)
            (some (service_payload py split_dot open_url entity extra)) w))

    found-Tells :
        (devices : List Entity) (device action : String) (extra : Option Dict) (e : Option Entity)
        (w : W)
        → Tells (live_found py split_dot open_url devices device action extra e w).0
    unfolding live_found
    found-Tells devices device action extra none w = tt
    found-Tells devices device action extra (some entity) w =
        service-Tells entity action extra (service_for py entity.domain action) w

    -- Where every request is answered or fails with one of the exceptions that the module handles,
    -- and the list of devices is read or fails so, a command to a live instance gives a text.
    pub control_live-Tells :
        (device action : String) (extra : Option Dict) (w : W) (devices : List Entity)
        → seen_devices py split_dot open_url (live_list py split_dot open_url w).0 ≡ some devices
        → Tells (control_live py split_dot open_url device action extra w).0
    unfolding control_live live_among
    control_live-Tells device action extra w devices h =
        let after = (live_list py split_dot open_url w).1 in
        subst (λ o. Tells (live_among py split_dot open_url device action extra o after).0) (sym h)
          (found-Tells devices device action extra (match_entity py devices device) after)

  module _ {W : Type 0} (open_url : Open W) where
    found_unknown :
        (devices : List Entity) (device action : String) (extra : Option Dict) (e : Option Entity)
        (w : W)
        → ((x : Entity) → e ≡ some x → service_for py x.domain action ≡ none)
        → (live_found py split_dot open_url devices device action extra e w).1 ≡ w
    unfolding live_found live_service
    found_unknown devices device action extra none w k = refl
    found_unknown devices device action extra (some x) w k =
        ap (λ s. (live_service py split_dot open_url x action extra s w).1) (k x refl)

    -- A command that names no device, or an action that its device does not have, calls no service:
    -- the outside is what the listing left.
    pub control_live_unknown :
        (device action : String) (extra : Option Dict) (w : W) (devices : List Entity)
        → seen_devices py split_dot open_url (live_list py split_dot open_url w).0 ≡ some devices
        → ((e : Entity)
            → match_entity py devices device ≡ some e
            → service_for py e.domain action ≡ none)
        → (control_live py split_dot open_url device action extra w).1
          ≡ (live_list py split_dot open_url w).1
    unfolding control_live live_among
    control_live_unknown device action extra w devices h k =
        let after = (live_list py split_dot open_url w).1 in
        ap (λ o. (live_among py split_dot open_url device action extra o after).1) h
        ∙ found_unknown devices device action extra (match_entity py devices device) after k
