-- ===== src/Tests/Gate.antt =====
-- Requests to the gate, and the owner's answers, at concrete inputs.
use domesticoracle.Prelude.{
  ℕ, suc, text_eq, sym, ap, ◌∙◌, String, ◌≡◌, ◌≢◌, refl, true, false, none, some, [], ◌∷◌, arith,
  if◌then◌else◌,
}
use domesticoracle.Prelude.Table.{lookup}
use domesticoracle.Python.{end, field, str, num_of, ◌+?◌}
use domesticoracle.Limits.{check_and_record}
use domesticoracle.Policy.{
  allow, get_mode, enforced, evaluate, cached_policies, local_evaluate, evaluate_from,
}
use domesticoracle.Ledger.{init_db}
use domesticoracle.Ledger.Spending.{add_each}
use domesticoracle.Consent.{
  Approval, Store, returned, Callable, Setup, Call, request_action, decide, is_revoked, is_flagged,
}
use domesticoracle.Consent.Safety.{world, admits, request-world, enforced_runs_allowed}
use domesticoracle.Consent.Trail.{Trail, request-HasTrail}
use domesticoracle.Tests.Host.{host, scheme}

abbrev pub setup : Setup
setup = record {
  py = host;
  sg = scheme;
  key = "k";
  caps = record { hourly_limit = 2; daily_cap = 3 };
  registry = record { rules = []; hidden_unicode = []; with_commas = λ _. "n" };
  reading = record {
    extract = λ _ _. none;
    total = add_each (λ x y. x +? y) (num_of 0);
    plus = λ x y. x +? y;
    parts = λ _. [];
    partition = λ _. none;
  };
}

abbrev pub lamp_off : Call
lamp_off = record {
  actor_id = "ora.home";
  action = "control_device";
  args = field "device" (str "lamp") (field "action" (str "off") end);
  sources = [];
  approval_id = "apr_1";
  scanned_at = 1;
  checked_at = 1;
  hour = 12;
  midnight = num_of 0;
  logged_at = 2;
  anchored_at = 3;
  created_at = 4;
}

abbrev pub held_purchase : Approval
held_purchase = record {
  actor_id = "ora.shopping";
  action = "make_purchase";
  args = field "item" (str "tea") end;
  summary = "item=tea";
  reason = "over the limit";
  ledger_id = 1;
  status = "pending";
  approved_by_owner = false;
  created = 1;
}

abbrev pub home : Store
home = record {
  agents =
      (
        "ora.home",
        record {
          name = "Home Control Agent";
          status = "active";
          kind = "internal";
          public_key = "";
          created = 0;
        },
      )
      ∷ [];
  approvals = ("apr_0", held_purchase) ∷ [];
  nonces = [];
  counts = record { hourly = []; daily = [] };
  policies = record { rows = []; last_id = 0; mode = some enforced; cache = none };
  ledger = init_db;
}

-- The outside is the number of times that something was done.
abbrev pub once : Callable ℕ
once n = (returned "done", suc n)

request-world_example :
    world (request_action setup lamp_off once home 0)
    ≡ (if admits setup lamp_off home then 1 else 0)
request-world_example = request-world setup lamp_off once home 0

lamp_off_admitted : admits setup lamp_off home ≡ true
unfolding lookup decide check_and_record evaluate cached_policies local_evaluate evaluate_from
    get_mode
lamp_off_admitted = refl

lamp_off_runs : world (request_action setup lamp_off once home 0) ≢ 0
lamp_off_runs e = absurd (
    ground (
      arith,
      sym e
          ∙ request-world setup lamp_off once home 0
          ∙ ap (λ b. if b then 1 else 0) lamp_off_admitted,
    ))

enforced_runs_allowed_example :
    (is_revoked (lookup "ora.home" home.agents) ≡ false)
    × ((check_and_record host setup.caps "ora.home" 1 home.counts).0.0 ≡ true)
    × (is_flagged setup lamp_off ≡ false)
    × ((reason : String) × ((decide setup lamp_off home).0 ≡ some (allow, reason)))
enforced_runs_allowed_example =
    enforced_runs_allowed setup lamp_off once home 0 (unfold get_mode in refl) lamp_off_runs

request-HasTrail_example : Trail lamp_off home.ledger (request_action setup lamp_off once home 0)
request-HasTrail_example = request-HasTrail setup lamp_off once home 0
