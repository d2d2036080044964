-- ===== src/Tests/Streams.antt =====
-- The chat stream and the chat history at concrete inputs.
use domesticoracle.Prelude.{
  ◌≡◌, ◌≤◌, refl, true, none, some, List, [], ◌∷◌, ◌+◌, ◌*◌, length, text_eq, nat_eq,
}
use domesticoracle.Python.{str, end}
use domesticoracle.Consent.{Answer, held}
use domesticoracle.Stream.{Frame, text, Bridge, Run, here, put, got, start, put_step, get_step}
use domesticoracle.Stream.Delivery.{bridge_ends, bridge_delivers}
use domesticoracle.Routes.{Message, Live}
use domesticoracle.Routes.Threads.{IsBounded, began, visits, visits-IsBounded}
use domesticoracle.HomeAssistant.{Entity}
use domesticoracle.Tests.Host.{host}

abbrev hello : List Frame
hello = text (str "hello") ∷ []

abbrev at_rest : Bridge
at_rest = record {
  rest = [];
  error = some "lost";
  ended = true;
  queue = [];
  out = hello;
  finished = true;
  raised = some "lost";
}

hello_run : Run 4 (start hello (some "lost")) at_rest
unfolding put_step get_step
hello_run = got 3 _ _ _ (put 2 _ _ _ (got 1 _ _ _ (put 0 _ _ _ (here _) refl) refl) refl) refl

bridge_ends_example : 4 ≤ 2 * length hello + 2
bridge_ends_example = bridge_ends hello (some "lost") 4 at_rest hello_run

bridge_delivers_example :
    (at_rest.finished ≡ true) × (at_rest.out ≡ hello) × (at_rest.raised ≡ some "lost")
bridge_delivers_example =
    bridge_delivers hello (some "lost") 4 at_rest hello_run (unfold put_step in refl)
      (unfold get_step in refl)

abbrev over_limit : Answer
over_limit = record {
  status = held;
  reason = "over the limit";
  result = none;
  approval_id = some "apr_1";
  ledger_id = 1;
}

visits-IsBounded_example : IsBounded (visits host (began "ann" "hi" ∷ []) [])
visits-IsBounded_example = visits-IsBounded host (began "ann" "hi" ∷ [])

abbrev hi : Message
hi = record { role = "user"; content = "hi" }

abbrev lamp : Entity
lamp = record {
  entity_id = "light.bedroom";
  name = "Bedroom Light";
  state = "on";
  domain = "light";
  attributes = end;
}

abbrev watched : Live
watched = record { cache = []; subscribers = (1, []) ∷ [] }
