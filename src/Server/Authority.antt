-- ===== src/Server/Authority.antt =====
-- backend/main.py: what only the owner can change.
use domesticoracle.Prelude.{◌≡◌, ap, sym, subst, Bool, Option, none, List, [], ◌∷◌}
use domesticoracle.Auth.{require_owner}
use domesticoracle.HomeAssistant.{Entity}
use domesticoracle.Agent.{Outside}
use domesticoracle.Consent.{Setup}
use domesticoracle.Consent.Untouched.{IsUntouched-same}
use domesticoracle.Routes.Owner.{error}
use domesticoracle.Server.{
  Backend, Arrival, OwnerRoute, Route, open_to_all, owner_only, serve, admit, serve_owner,
}
use domesticoracle.Server.Kept.{IsGoverned, IsGoverned-then, same_key}
use domesticoracle.Server.Governed.{open-IsGoverned}

module _ {W : Type 0} (st : Setup) (out : Outside W) (list_home : W → List Entity × W) where
  -- Without a session an owner's route is a 401 that changes nothing but the sessions.
  pub owner_refused :
      (a : Arrival) (r : OwnerRoute) (b : Backend) (w : W)
      → (require_owner a.session a.now b.sessions).0 ≡ none
      → serve st out list_home a (owner_only r) (b, w) ≡ (
        error 401 "Owner session required.",
        (record b { sessions = (require_owner a.session a.now b.sessions).1 }, w),
      )
  unfolding serve admit
  owner_refused a r b w h =
      ap
        (λ (o : Option Bool).
          admit st out list_home (serve_owner st out list_home a r) o
            (record b { sessions = (require_owner a.session a.now b.sessions).1 }, w))
        h

  refused-IsGoverned :
      (a : Arrival) (r : OwnerRoute) (b : Backend) (w : W)
      → (require_owner a.session a.now b.sessions).0 ≡ none
      → IsGoverned b (serve st out list_home a (owner_only r) (b, w)).1.0
  refused-IsGoverned a r b w h =
      subst (λ x. IsGoverned b x.1.0) (sym (owner_refused a r b w h))
        (record { store = IsUntouched-same b.store; key = same_key b.keys })

  unfoldable pub serve_all : List (Arrival × Route) → Backend × W → Backend × W
  serve_all [] s = s
  serve_all ((a, r) ∷ rest) s = serve_all rest (serve st out list_home a r s).1

  -- None of the requests carries a session that is valid when it arrives.
  unfoldable pub HasNoOwner : List (Arrival × Route) → Backend × W → Type 0
  HasNoOwner [] s = Unit
  HasNoOwner ((a, r) ∷ rest) (b, w) =
      ((require_owner a.session a.now b.sessions).0 ≡ none)
      × HasNoOwner rest (serve st out list_home a r (b, w)).1

  step-IsGoverned :
      (a : Arrival) (r : Route) (b : Backend) (w : W)
      → (require_owner a.session a.now b.sessions).0 ≡ none
      → IsGoverned b (serve st out list_home a r (b, w)).1.0
  step-IsGoverned a (open_to_all r) b w h = unfold serve in open-IsGoverned st out list_home a r b w
  step-IsGoverned a (owner_only r) b w h = refused-IsGoverned a r b w h

  -- Whatever requests arrive at the routes of `Route`, which the mounted MCP server's tools are among,
  -- in whatever order, none with a valid session, and whatever the model that answers the chat asks of
  -- its guarded tools: no agent, rule or mode changes, no approval that was there is touched, no ledger
  -- entry goes, and the key that signs stays, once it is loaded.
  pub only_the_owner :
      (requests : List (Arrival × Route)) (b : Backend) (w : W)
      → HasNoOwner requests (b, w)
      → IsGoverned b (serve_all requests (b, w)).0
  unfolding serve_all HasNoOwner
  only_the_owner [] b w h = record { store = IsUntouched-same b.store; key = same_key b.keys }
  only_the_owner ((a, r) ∷ rest) b w h =
      let (b', w') = (serve st out list_home a r (b, w)).1 in
      IsGoverned-then b b' _ (step-IsGoverned a r b w h.0) (only_the_owner rest b' w' h.1)
