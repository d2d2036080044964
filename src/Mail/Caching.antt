-- ===== src/Mail/Caching.antt =====
-- backend/domestic_oracle/atomicmail_client.py: what the caches of the JMAP session and of the inbox's
-- id save.
use domesticoracle.Prelude.{ℕ, ◌≡◌, true, arith, Bool-cases, inl, inr, text_eq}
use domesticoracle.Python.{Python, Json, null, arr, nil, get_default, truthy}
use domesticoracle.Mail.Calls.{Service, Account, Client, ok, lift, jmap}
use domesticoracle.Mail.Messages.{response, first_or}
use domesticoracle.Mail.Client.{
  mailbox_query, get_inbox_mailbox_id, ask_mailbox_id, keep_mailbox, store_mailbox,
}
use domesticoracle.Mail.Confirmed.{follow-ok}

module _ {W : Type 0} (py : Python) (sv : Service W) (fuel : ℕ) where
  store_mailbox-kept :
      (x : Json) (s s' : Client × W) (id : Json)
      → store_mailbox py sv fuel x s ≡ (ok id, s')
      → s'.0.mailbox_id ≡ id
  unfolding store_mailbox
  store_mailbox-kept x (c, w) s' id h = ground arith

  keep_mailbox-kept :
      (ids : Json) (s s' : Client × W) (id : Json)
      → keep_mailbox py sv fuel ids s ≡ (ok id, s')
      → s'.0.mailbox_id ≡ id
  unfolding keep_mailbox
  keep_mailbox-kept ids (c, w) s' id h = elim (Bool-cases (truthy ids)) [
    | inl e ↦
        let (x, s1, e1, h1) = follow-ok _ (lift (first_or null ids) (c, w)) id s' (rw e at h) in
        store_mailbox-kept x s1 s' id h1
    | inr e ↦ ground arith
  ]

  ask_mailbox_id-kept :
      (a : Account) (s s' : Client × W) (id : Json)
      → ask_mailbox_id py sv fuel a s ≡ (ok id, s')
      → s'.0.mailbox_id ≡ id
  unfolding ask_mailbox_id
  ask_mailbox_id-kept a s s' id h =
      let (responses, s1, e1, h1) =
        follow-ok _ (jmap py sv fuel (mailbox_query py sv fuel a) a s) id s' h in
      let (mq, s2, e2, h2) = follow-ok _ (lift (response "mq" responses) s1) id s' h1 in
      keep_mailbox-kept (get_default "ids" (arr nil) mq) s2 s' id h2

  mailbox-kept :
      (a : Account) (s s' : Client × W) (id : Json)
      → get_inbox_mailbox_id py sv fuel a s ≡ (ok id, s')
      → s'.0.mailbox_id ≡ id
  unfolding get_inbox_mailbox_id
  mailbox-kept a (c, w) s' id h = ground (arith, ask_mailbox_id-kept a (c, w) s' id)

  -- An inbox id that was found is given again without a request, for whatever account.
  pub mailbox_id_reused :
      (a a' : Account) (s s' : Client × W) (w : W) (id : Json)
      → get_inbox_mailbox_id py sv fuel a s ≡ (ok id, s')
      → truthy id ≡ true
      → get_inbox_mailbox_id py sv fuel a' (s'.0, w) ≡ (ok id, (s'.0, w))
  unfolding get_inbox_mailbox_id
  mailbox_id_reused a a' s s' w id h set =
      let kept = mailbox-kept a s s' id h in ground (arith, kept)
