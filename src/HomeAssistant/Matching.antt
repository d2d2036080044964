-- ===== src/HomeAssistant/Matching.antt =====
-- Which device a spoken name means, and what a command can change.
use domesticoracle.Prelude.{
  String, ◌≡◌, ◌≢◌, refl, Bool, true, false, ◌||◌, Option, none, some, List, [], ◌∷◌, any, arith,
  ◌==◌, text_eq, if◌then◌else◌, Bool-cases, inl, inr, eq_iff,
}
use domesticoracle.Prelude.Table.{Table, lookup, lookup-update}
use domesticoracle.Python.{Python, Dict}
use domesticoracle.Policy.{is_within}
use domesticoracle.HomeAssistant.{
  Device, Entity, Seen, look, match_entity, choose, control, control_mock, control_entity,
  perform_service, service_for, list_mock, operate,
}

abbrev HasId : Python → String → Seen → Type 0
HasId py q seen = (e : Entity) × (seen.exact_id ≡ some e) × (py.lower e.entity_id ≡ q)

either_way :
    (py : Python) (q : String) (b : Bool) (x y : Seen)
    → HasId py q x
    → HasId py q y
    → HasId py q (if b then x else y)
either_way py q true x y hx hy = hx
either_way py q false x y hx hy = hy

choose-exact : (seen : Seen) (e : Entity) → seen.exact_id ≡ some e → choose seen ≡ some e
choose-exact seen e h = ground arith

module _ (py : Python) where
  look-exact_id :
      (q : String) (devices : List Entity) (seen : Seen)
      → any (λ (d : Entity). py.lower d.entity_id == q) devices ≡ true
      → (e : Entity) × ((look py q devices seen).exact_id ≡ some e) × (py.lower e.entity_id ≡ q)
  unfolding look
  look-exact_id q [] seen h = absurd (ground arith)
  look-exact_id q (d ∷ devices) seen h = elim (Bool-cases (py.lower d.entity_id == q)) [
    | inl same ↦ (d, rw same refl, (eq_iff (py.lower d.entity_id) q).0 same)
    | inr other ↦
        let later : any (λ (x : Entity). py.lower x.entity_id == q) devices ≡ true = ground arith in
        rw other (
          either_way py q (py.lower d.name == q) _ _ (look-exact_id q devices _ later) (
            either_way py q (is_within q (py.lower d.name) || is_within q (py.lower d.entity_id)) _
              _ (look-exact_id q devices _ later) (look-exact_id q devices seen later)))
  ]

  -- A device whose id is asked for is found, whatever other names contain that text.
  pub match_entity-exact_id :
      (devices : List Entity) (device : String)
      → (py.lower (py.strip device) == "") ≡ false
      → any (λ (d : Entity). py.lower d.entity_id == py.lower (py.strip device)) devices ≡ true
      → (e : Entity) × (match_entity py devices device ≡ some e)
        × (py.lower e.entity_id ≡ py.lower (py.strip device))
  unfolding match_entity
  match_entity-exact_id devices device set h =
      let (e, found, same) =
        look-exact_id (py.lower (py.strip device)) devices
          (record { exact_id = none; exact_name = none; substring_hits = [] }) h in
      (e, rw set (choose-exact _ e found), same)

module _ (py : Python) (split_dot : String → Option (String × String)) where
  service_others :
      (e : Entity) (action eid : String) (extra : Option Dict) (devices : Table String Device)
      (service : Option String)
      → e.entity_id ≢ eid
      → lookup eid (perform_service py split_dot e action extra devices service).1
        ≡ lookup eid devices
  unfolding perform_service control_mock
  service_others e action eid extra devices none ne = refl
  service_others e action eid extra devices (some service) ne =
      ground (
        arith,
        lookup-update e.entity_id eid (operate service extra) devices,
        eq_iff e.entity_id eid,
      )

  entity_others :
      (device action eid : String) (extra : Option Dict) (devices : Table String Device)
      (found : Option Entity)
      → ((e : Entity) → found ≡ some e → e.entity_id ≢ eid)
      → lookup eid (control_entity py split_dot device action extra devices found).1
        ≡ lookup eid devices
  unfolding control_entity
  entity_others device action eid extra devices none h = refl
  entity_others device action eid extra devices (some e) h =
      service_others e action eid extra devices (service_for py e.domain action) (h e refl)

  -- A command changes at most the one device that its name means.
  pub control_others :
      (device action eid : String) (extra : Option Dict) (devices : Table String Device)
      → ((e : Entity)
          → match_entity py (list_mock split_dot devices) device ≡ some e
          → e.entity_id ≢ eid)
      → lookup eid (control py split_dot device action extra devices).1 ≡ lookup eid devices
  unfolding control
  control_others device action eid extra devices h =
      entity_others device action eid extra devices
        (match_entity py (list_mock split_dot devices) device) h
