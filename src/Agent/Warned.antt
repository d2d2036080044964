-- ===== src/Agent/Warned.antt =====
-- backend/domestic_oracle/tools/message_tools.py: what `read_inbox` lets through to the agent.
use Prim.Native.String.{◌++◌ as append_text}
use text.Mathlib.TextLemmas.{append_assoc, append-nil}
use domesticoracle.Prelude.{
  ℕ, ◌-◌, ◌≤◌, String, ◌≡◌, refl, ap, sym, ◌∙◌, subst, Bool, true, false, ◌⊎◌, inl, inr, Option,
  none, some, List, [], ◌∷◌, map, length, any, ltb, arith, Bool-cases,
}
use domesticoracle.Prelude.Int.{ℤ, pos}
use domesticoracle.Python.{Dict, Python, Json, truthy, take_text, text_length, end}
use domesticoracle.Python.Slices.{text_length-append, text_length-take, take-append}
use domesticoracle.Crypto.{Signatures}
use domesticoracle.Risk.{score}
use domesticoracle.Provenance.{Registry, Source, scan_sources, is_suspicious, content_of}
use domesticoracle.Provenance.Signals.{is_suspect, scan_sources-suspicious}
use domesticoracle.Ledger.{Ledger, append}
use domesticoracle.Consent.{Effect, returned, raised}
use domesticoracle.Mail.Calls.{Service, Client, Outcome, ok, refused, crashed, no_fuel}
use domesticoracle.Mail.Client.{list_inbox}
use domesticoracle.Agent.Inbox.{
  Mail, capped, inbox_text, inbox_warning, source_of, join_lines, heading, mails_in, inbox_draft,
  log_inbox, show_mails, show_read, show_inbox, read_inbox, clamp_limit,
}

cap_mark-length : text_length "\n[... truncated]" ≡ 16
unfolding text_length
cap_mark-length = refl

capped-short : (s : String) → text_length (capped s) ≤ 4016
capped-short s = elim (Bool-cases (ltb 4000 (text_length s))) [
  | inl e ↦
      rw (e, text_length-append (take_text 4000 s) "\n[... truncated]", cap_mark-length)
        (omega (arith, text_length-take 4000 s))
  | inr e ↦ rw e (ground arith)
]

-- What fits under the cap stays in front.
capped-prefix :
    (s t : String)
    → text_length s ≤ 4000
    → (tail : String) × (capped (append_text s t) ≡ append_text s tail)
capped-prefix s t h = elim (Bool-cases (ltb 4000 (text_length (append_text s t)))) [
  | inl e ↦
      let kept = take_text (4000 - text_length s) t in
      (
        append_text kept "\n[... truncated]",
        rw (e, take-append s t 4000 h) (append_assoc s kept "\n[... truncated]"),
      )
  | inr e ↦ (t, rw e refl)
]

-- A joined text starts with its first line.
join-first :
    (line : String) (lines : List String)
    → (tail : String) × (join_lines line lines ≡ append_text line tail)
join-first line [] = ("", sym (append-nil line))
join-first line (next ∷ lines) = (append_text "\n" (join_lines next lines), refl)

warning-length : text_length (append_text "\n" inbox_warning) ≡ 81
unfolding text_length
warning-length = refl

-- The first two lines of an inbox that is warned of.
abbrev pub front : Python → List Mail → String
front py mails = append_text (heading py (length mails)) (append_text "\n" inbox_warning)

warned-text :
    (py : Python) (mails : List Mail)
    → text_length (heading py (length mails)) ≤ 3000
    → (tail : String) × (capped (inbox_text py true mails) ≡ append_text (front py mails) tail)
unfolding inbox_text
warned-text py mails h =
    let (rest, joined) = join-first inbox_warning (map (λ (m : Mail). m.line) mails) in
    let (tail, cut) =
      capped-prefix (front py mails) rest (rw text_length-append (omega (arith, warning-length))) in
    let head = heading py (length mails) in
    (
      tail,
      ap (λ (x : String). capped (append_text head (append_text "\n" x))) joined
          ∙ ap (λ (x : String). capped (append_text head x))
              (sym (append_assoc "\n" inbox_warning rest))
          ∙ ap capped (sym (append_assoc head (append_text "\n" inbox_warning) rest))
          ∙ cut,
    )

abbrev effect_text : Effect → String
effect_text (returned text) = text
effect_text (raised error) = error

module _ (py : Python) (sg : Signatures) (key : String) (reg : Registry)
    (scanned_at now written : ℕ) where
  show_mails-eq :
      (limit : ℤ) (mails : List Mail) (l : Ledger) (b : Bool)
      → any (λ (s : Source). is_suspect reg (content_of s)) (map source_of mails) ≡ b
      → show_mails py sg key reg scanned_at now written limit mails l ≡ (
          let text = capped (inbox_text py b mails) in
          (
            returned text,
            (append py sg key now written
                (inbox_draft py sg key reg scanned_at now written limit text
                  (some (scan_sources reg scanned_at (map source_of mails)))
                  (pos 5))
                l).1,
          ))
  unfolding show_mails log_inbox
  show_mails-eq limit mails l b h =
      rw (scan_sources-suspicious reg scanned_at (map source_of mails), h) refl

  show_inbox-ok :
      (limit : ℤ) (emails : Json) (mails : List Mail) (l : Ledger)
      → truthy emails ≡ true
      → mails_in py emails ≡ ok mails
      → show_inbox py sg key reg scanned_at now written limit (ok emails) l
        ≡ show_mails py sg key reg scanned_at now written limit mails l
  unfolding show_inbox show_read
  show_inbox-ok limit emails mails l set read = rw (set, read) refl

  log_inbox-short :
      (limit : ℤ) (result text : String) (prov : Option Dict) (risk : Option ℤ) (l : Ledger)
      → text_length result ≤ 4016
      → (log_inbox py sg key reg scanned_at now written limit result prov risk l).0 ≡ returned text
      → text_length text ≤ 4016
  unfolding log_inbox
  log_inbox-short limit result text prov none l le h = absurd (ground arith)
  log_inbox-short limit result text prov (some risk) l le h =
      subst (λ n. n ≤ 4016) (ap (λ (e : Effect). text_length (effect_text e)) h) le

  module _ {W : Type 0} (sv : Service W) (fuel : ℕ) where
    abbrev pub reads : ℤ → Ledger → Client × W → Effect × (Ledger × (Client × W))
    reads = read_inbox py sg key reg scanned_at now written sv fuel

    abbrev pub shown : ℤ → String → List Mail → Ledger → Effect × Ledger
    shown limit text mails l = (
      returned text,
      (append py sg key now written
          (inbox_draft py sg key reg scanned_at now written limit text
            (some (scan_sources reg scanned_at (map source_of mails))) (pos 5))
          l).1,
    )

    seen :
        (limit : ℤ) (l : Ledger) (s s' : Client × W) (emails : Json) (r : Effect × Ledger)
        → list_inbox py sv fuel (clamp_limit limit) s ≡ (ok emails, s')
        → show_inbox py sg key reg scanned_at now written limit (ok emails) l ≡ r
        → reads limit l s ≡ (r.0, (r.1, s'))
    unfolding read_inbox
    seen limit l s s' emails r got show =
        ap
          (λ (x : Outcome Json × (Client × W)).
            (let (effect, l') = show_inbox py sg key reg scanned_at now written limit x.0 l in
              (effect, (l', x.1))))
          got
        ∙ ap (λ (x : Effect × Ledger). (x.0, (x.1, s'))) show

    -- Where a message that is read from the server is suspect, the agent's text starts with the
    -- heading and the warning, however long the rest is, and one ledger entry records the scan.
    pub suspect_mail_warned :
        (limit : ℤ) (l : Ledger) (s s' : Client × W) (emails : Json) (mails : List Mail)
        → list_inbox py sv fuel (clamp_limit limit) s ≡ (ok emails, s')
        → truthy emails ≡ true
        → mails_in py emails ≡ ok mails
        → any (λ (x : Source). is_suspect reg (content_of x)) (map source_of mails) ≡ true
        → text_length (heading py (length mails)) ≤ 3000
        → (tail : String) × (let (effect, l') =
              shown limit (append_text (front py mails) tail) mails l in
            reads limit l s ≡ (effect, (l', s')))
    suspect_mail_warned limit l s s' emails mails got set read h k =
        let (tail, cut) = warned-text py mails k in
        (
          tail,
          seen limit l s s' emails (shown limit (append_text (front py mails) tail) mails l) got (
              show_inbox-ok limit emails mails l set read
              ∙ show_mails-eq limit mails l true h
              ∙ ap (λ (text : String). shown limit text mails l) cut),
        )

    -- Where no message is suspect, the text has no warning line, and the entry records the scan.
    pub clean_mail_shown :
        (limit : ℤ) (l : Ledger) (s s' : Client × W) (emails : Json) (mails : List Mail)
        → list_inbox py sv fuel (clamp_limit limit) s ≡ (ok emails, s')
        → truthy emails ≡ true
        → mails_in py emails ≡ ok mails
        → any (λ (x : Source). is_suspect reg (content_of x)) (map source_of mails) ≡ false
        → (let (effect, l') = shown limit (capped (inbox_text py false mails)) mails l in
            reads limit l s ≡ (effect, (l', s')))
    clean_mail_shown limit l s s' emails mails got set read h =
        seen limit l s s' emails (shown limit (capped (inbox_text py false mails)) mails l) got
          (show_inbox-ok limit emails mails l set read ∙ show_mails-eq limit mails l false h)

    show_read-short :
        (limit : ℤ) (mails : Outcome (List Mail)) (l : Ledger) (text : String)
        → (show_read py sg key reg scanned_at now written limit mails l).0 ≡ returned text
        → text_length text ≤ 4016
    unfolding show_read show_mails
    show_read-short limit (ok mails) l text h =
        let prov = scan_sources reg scanned_at (map source_of mails) in
        let result = inbox_text py (is_suspicious prov) mails in
        log_inbox-short limit (capped result) text (some prov) (score py "read_inbox" end "allow") l
          (capped-short result) h
    show_read-short limit (refused why) l text h = absurd (ground arith)
    show_read-short limit (crashed error) l text h = absurd (ground arith)
    show_read-short limit no_fuel l text h = absurd (ground arith)

    show_inbox-short :
        (limit : ℤ) (emails : Outcome Json) (l : Ledger) (text : String)
        → (show_inbox py sg key reg scanned_at now written limit emails l).0 ≡ returned text
        → ((why : String) × (emails ≡ refused why)) ⊎ (text_length text ≤ 4016)
    unfolding show_inbox
    show_inbox-short limit (ok emails) l text h = elim (Bool-cases (truthy emails)) [
      | inl e ↦ inr (show_read-short limit (mails_in py emails) l text (rw e at h))
      | inr e ↦ inr (
          log_inbox-short limit "Inbox is empty." text none (score py "read_inbox" end "allow") l
            (unfold text_length in omega arith) (rw e at h))
    ]
    show_inbox-short limit (refused why) l text h = inl (why, refl)
    show_inbox-short limit (crashed error) l text h = absurd (ground arith)
    show_inbox-short limit no_fuel l text h = absurd (ground arith)

    -- Whatever the server gives, a text that the agent gets has at most 4,016 characters, unless it
    -- is the report that the mail service refused.
    pub inbox_bounded :
        (limit : ℤ) (l : Ledger) (s : Client × W) (text : String)
        → (reads limit l s).0 ≡ returned text
        → ((why : String) × ((list_inbox py sv fuel (clamp_limit limit) s).0 ≡ refused why))
          ⊎ (text_length text ≤ 4016)
    unfolding read_inbox
    inbox_bounded limit l s text h =
        show_inbox-short limit (list_inbox py sv fuel (clamp_limit limit) s).0 l text h
