-- ===== src/Mail/Confirmed.antt =====
-- backend/domestic_oracle/atomicmail_client.py: when `send` and `reply` say that a message went out.
use Prim.Native.String.{◌++◌ as append_text}
use text.Mathlib.Text.{starts_with}
use domesticoracle.Prelude.{
  ℕ, String, ◌≡◌, refl, ap, subst, ◌∙◌, true, Option, List, [], ◌∷◌, arith, Bool-cases, inl, inr,
  text_eq,
}
use domesticoracle.Python.{Python, Json, Dict, end, obj, get_json, get_default, concat, truthy, str}
use domesticoracle.Policy.{text_of}
use domesticoracle.Mail.Calls.{
  Service, Account, Client, Fetched, fetched, bad_status, unreachable, Outcome, ok, refused,
  crashed, no_fuel, Call, follow, lift, as_dict, capability, jmap_session, url_in, load_credentials,
  jmap, post_calls, responses_as, responses_in, payload_of_calls,
}
use domesticoracle.Mail.Messages.{
  first_or, first_dict, Original, send_calls, reply_calls, response, confirmed, answer_subject,
  reply_subject,
}
use domesticoracle.Mail.Client.{submit, send, read_email, original_in, reply}

abbrev pub value : {W A : Type 0} → Outcome A × (Client × W) → Outcome A
value (o, s) = o

abbrev subject_of : {W : Type 0} → Outcome Original × (Client × W) → String
subject_of (ok o, s) = o.subject
subject_of other = ""

abbrev pub state : {W A : Type 0} → Outcome A × (Client × W) → Client × W
state (o, s) = s

module _ {W A B : Type 0} where
  -- A call that gives a value went through its first part.
  pub follow-ok :
      (f : A → Call W B) (r : Outcome A × (Client × W)) (b : B) (s' : Client × W)
      → follow f r ≡ (ok b, s')
      → (a : A) × (s : Client × W) × (r ≡ (ok a, s)) × (f a s ≡ (ok b, s'))
  follow-ok f (ok a, s) b s' h = (a, s, refl, h)
  follow-ok f (refused why, s) b s' h = absurd (ground arith)
  follow-ok f (crashed error, s) b s' h = absurd (ground arith)
  follow-ok f (no_fuel, s) b s' h = absurd (ground arith)

as_dict-ok : (v : Json) (d : Dict) → as_dict v ≡ ok d → v ≡ obj d
as_dict-ok (obj e) d h = ground arith
as_dict-ok v d h = absurd (ground arith)

confirmed-ok :
    (py : Python) (sent failed : String) (sub : Dict) (text : String)
    → confirmed py sent failed sub ≡ ok text
    → (truthy (get_json "created" sub) ≡ true) × (text ≡ sent)
unfolding confirmed
confirmed-ok py sent failed sub text h = ground arith

module _ {W : Type 0} (py : Python) (sv : Service W) (fuel : ℕ) where
  -- A POST of these calls, the last thing that is done, whose `sub` response has a `created`.
  pub record IsAccepted (calls : List Json) (w' : W) : Type 0 where
    pub url : String
    pub bearer : String
    pub before : W
    pub body : Option Json
    pub posted : sv.post_json url bearer (payload_of_calls calls) before ≡ (fetched body, w')
    pub responses : Dict
    pub answered : responses_in body ≡ ok responses
    pub sub : Dict
    pub submitted : get_default "sub" (obj end) responses ≡ obj sub
    pub created : truthy (get_json "created" sub) ≡ true

  responses_as-ok :
      (c : Client) (r : Fetched × W) (s' : Client × W) (responses : Dict)
      → responses_as py sv fuel c r ≡ (ok responses, s')
      → (body : Option Json) × (r ≡ (fetched body, s'.1)) × (responses_in body ≡ ok responses)
  unfolding responses_as
  responses_as-ok c (fetched body, w) s' responses h = (
    body,
    ap (λ (x : Outcome Dict × (Client × W)). (fetched body, x.1.1)) h,
    ap (λ (x : Outcome Dict × (Client × W)). x.0) h,
  )
  responses_as-ok c (bad_status code text, w) s' responses h = absurd (ground arith)
  responses_as-ok c (unreachable error, w) s' responses h = absurd (ground arith)

  post_calls-ok :
      (cap : String) (calls : List Json) (url : String) (s s' : Client × W) (responses : Dict)
      → post_calls py sv fuel cap calls url s ≡ (ok responses, s')
      → (body : Option Json) × (sv.post_json url cap (payload_of_calls calls) s.1
          ≡ (fetched body, s'.1))
        × (responses_in body ≡ ok responses)
  unfolding post_calls
  post_calls-ok cap calls url s s' responses h = responses_as-ok s.0 _ s' responses h

  -- A JMAP request that is answered ends in a POST of its calls.
  pub jmap-ok :
      (calls : List Json) (a : Account) (s s' : Client × W) (responses : Dict)
      → jmap py sv fuel calls a s ≡ (ok responses, s')
      → (url cap : String) × (before : W) × (body : Option Json) × (sv.post_json url cap
            (payload_of_calls calls)
            before
          ≡ (fetched body, s'.1))
        × (responses_in body ≡ ok responses)
  unfolding jmap
  jmap-ok calls a s s' responses h =
      let (cap, s1, e1, h1) = follow-ok _ (capability py sv fuel a s) responses s' h in
      let (session, s2, e2, h2) =
        follow-ok _ (jmap_session py sv fuel cap a.api_url s1) responses s' h1 in
      let (url, s3, e3, h3) =
        follow-ok _ (lift (url_in py sv fuel a.api_url session) s2) responses s' h2 in
      let (body, posted, read) = post_calls-ok cap calls url s3 s' responses h3 in
      (url, cap, s3.1, body, posted, read)

  -- A submission that is confirmed: the answer's `sub` has a `created`.
  submit-ok :
      (calls : List Json) (sent failed text : String) (a : Account) (s s' : Client × W)
      → submit py sv fuel calls sent failed a s ≡ (ok text, s')
      → IsAccepted calls s'.1 × (text ≡ sent)
  unfolding submit
  submit-ok calls sent failed text a s s' h =
      let (responses, s2, asked, h2) = follow-ok _ (jmap py sv fuel calls a s) text s' h in
      let (sub, s3, e3, h3) = follow-ok _ (lift (response "sub" responses) s2) text s' h2 in
      let (url, cap, before, body, posted, read) = jmap-ok calls a s s2 responses asked in
      let (created, same) = confirmed-ok py sent failed sub text (ap value h3) in
      let ends : s2 ≡ s' = ap state e3 ∙ ap state h3 in
      (
        record {
          url = url;
          bearer = cap;
          before = before;
          body = body;
          posted =
              subst
                (λ (x : Client × W).
                  sv.post_json url cap (payload_of_calls calls) before ≡ (fetched body, x.1))
                ends posted;
          responses = responses;
          answered = read;
          sub = sub;
          submitted = as_dict-ok _ sub (ap value e3);
          created = created;
        },
        same,
      )

  -- A send that says that it is done: the last thing that happened is the POST of the draft with the
  -- given recipient, subject and body and of its submission, and the server's answer names the
  -- submission as created.
  pub send_confirmed :
      (to subject body : Json) (s s' : Client × W) (text : String)
      → send py sv fuel to subject body s ≡ (ok text, s')
      → (a : Account) × IsAccepted (send_calls a to subject body) s'.1
        × (text ≡ concat ("Email sent to " ∷ text_of py to ∷ "." ∷ []))
  unfolding send
  send_confirmed to subject body s s' text h =
      let (a, s1, e1, h1) = follow-ok _ (load_credentials py sv fuel s) text s' h in
      let (accepted, same) = submit-ok (send_calls a to subject body) _ _ text a s1 s' h1 in
      (a, accepted, same)

  answer_subject-Re :
      ((subject : String) → starts_with (py.lower (append_text "Re: " subject)) "re:" ≡ true)
      → (v : Json) (subject : String) → answer_subject py v ≡ ok subject
      → starts_with (py.lower subject) "re:" ≡ true
  unfolding answer_subject reply_subject
  answer_subject-Re lowered (str old) subject h =
      elim (Bool-cases (starts_with (py.lower old) "re:")) [
        | inl e ↦ ground arith
        | inr e ↦ ground (arith, lowered old)
      ]
  answer_subject-Re lowered v subject h = absurd (ground arith)

  original_in-Re :
      ((subject : String) → starts_with (py.lower (append_text "Re: " subject)) "re:" ≡ true)
      → (email : Dict) (o : Original) (s s' : Client × W)
      → original_in py sv fuel email s ≡ (ok o, s')
      → starts_with (py.lower o.subject) "re:" ≡ true
  unfolding original_in
  original_in-Re lowered email o s s' h =
      let (sender, s1, e1, h1) = follow-ok _ (lift (first_dict (get_json "from" email)) s) o s' h in
      let (from, s2, e2, h2) = follow-ok _ (lift (as_dict sender) s1) o s' h1 in
      let v = get_default "subject" (str "") email in
      let (subject, s3, e3, h3) = follow-ok _ (lift (answer_subject py v) s2) o s' h2 in
      let (message_id, s4, e4, h4) =
        follow-ok _ (lift (first_or (str "") (get_json "messageId" email)) s3) o s' h3 in
      subst (λ (x : String). starts_with (py.lower x) "re:" ≡ true) (ap subject_of h4)
        (answer_subject-Re lowered v subject (ap value e3))

  -- A reply that says that it is done: the last thing that happened is the POST of a draft with the
  -- given body and of its submission, to one address under one subject, which starts with `Re:` in
  -- any case, and the server's answer names the submission as created.
  pub reply_confirmed :
      ((subject : String) → starts_with (py.lower (append_text "Re: " subject)) "re:" ≡ true)
      → (email_id body : Json) (s s' : Client × W) (text : String)
      → reply py sv fuel email_id body s ≡ (ok text, s')
      → (a : Account) × (o : Original) × (starts_with (py.lower o.subject) "re:" ≡ true)
        × IsAccepted (reply_calls a o body) s'.1
        × (text ≡ concat ("Reply sent to " ∷ text_of py o.to ∷ "." ∷ []))
  unfolding reply
  reply_confirmed lowered email_id body s s' text h =
      let (a, s1, e1, h1) = follow-ok _ (load_credentials py sv fuel s) text s' h in
      let (email, s2, e2, h2) =
        follow-ok _
          (read_email py sv fuel a email_id ("subject" ∷ "from" ∷ "messageId" ∷ []) "orig" s1) text
          s' h1 in
      let (o, s3, e3, h3) = follow-ok _ (original_in py sv fuel email s2) text s' h2 in
      let (accepted, same) = submit-ok (reply_calls a o body) _ _ text a s3 s' h3 in
      (a, o, original_in-Re lowered email o s2 s3 e3, accepted, same)
