-- ===== src/Stream/Pump.antt =====
-- backend/domestic_oracle/stream.py: `deerflow_to_sse`, a worker thread that puts frames into a
-- queue of 64 places and a consumer that yields them. Each of the two moves is one step; which of
-- them comes next is open. The consumer is read to its end.
use domesticoracle.Prelude.{
  ℕ, String, Bool, true, false, Option, none, some, List, [], ◌∷◌, ◌++◌, ◌≡◌, suc, zero, leb,
  length, if◌then◌else◌,
}
use domesticoracle.Stream.Frames.{Frame}

pub data Place : Type 0 where
  frame : Frame → Place
  sentinel : Place

-- `rest` is what the worker has still to put, `error` the exception that then ends its iteration;
-- `raised` is the exception that the consumer's iteration ends with.
pub record Bridge : Type 0 where
  pub rest : List Frame
  pub error : Option String
  pub ended : Bool
  pub queue : List Place
  pub out : List Frame
  pub finished : Bool
  pub raised : Option String

abbrev pub capacity : ℕ
capacity = 64

abbrev pub start : List Frame → Option String → Bridge
start frames error = record {
  rest = frames;
  error = error;
  ended = false;
  queue = [];
  out = [];
  finished = false;
  raised = none;
}

unfoldable pub put_next : Bridge → List Frame → Bool → Option Bridge
put_next s (f ∷ rest) ended = some (record s { rest = rest; queue = s.queue ++ frame f ∷ [] })
put_next s [] false = some (record s { ended = true; queue = s.queue ++ sentinel ∷ [] })
put_next s [] true = none

-- `_pump`: it waits while the queue is full; the sentinel comes last, also after an exception.
unfoldable pub put_step : Bridge → Option Bridge
unfolding put_next
put_step s = if leb capacity (length s.queue) then none else put_next s s.rest s.ended

unfoldable pub get_next : Bridge → List Place → Option Bridge
get_next s [] = none
get_next s (frame f ∷ queue) = some (record s { queue = queue; out = s.out ++ f ∷ [] })
get_next s (sentinel ∷ queue) = some (record s { queue = queue; finished = true; raised = s.error })

-- The consumer: its loop waits while the queue is empty. The sentinel ends it, and `await pump_task`
-- then raises what the worker raised, which has nothing left to do.
unfoldable pub get_step : Bridge → Option Bridge
unfolding get_next
get_step s = if s.finished then none else get_next s s.queue

-- Any interleaving of the two.
pub data Run : ℕ → Bridge → Bridge → Type 0 where
  here : (s : Bridge) → Run zero s s
  put : (n : ℕ) (r s t : Bridge) → Run n r s → put_step s ≡ some t → Run (suc n) r t
  got : (n : ℕ) (r s t : Bridge) → Run n r s → get_step s ≡ some t → Run (suc n) r t
