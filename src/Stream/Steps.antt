-- ===== src/Stream/Steps.antt =====
-- What each move of worker and consumer keeps: order, bound, and the place of the sentinel.
use domesticoracle.Prelude.{
  String, Bool, true, false, Option, some, List, [], ◌∷◌, ◌++◌, ◌≡◌, refl, ◌∙◌, ap, none,
  if◌then◌else◌, ◌≤◌, leb, length, length-append, arith, subst, Bool-cases, inl, inr,
}
use mathlib.Core.List.{append_assoc, append-nil}
use domesticoracle.Stream.Frames.{Frame}
use domesticoracle.Stream.Pump.{
  Place, frame, sentinel, Bridge, capacity, start, put_next, put_step, get_next, get_step,
}

abbrev pub queued_frames : List Place → List Frame
queued_frames [] = []
queued_frames (frame f ∷ q) = f ∷ queued_frames q
queued_frames (sentinel ∷ q) = queued_frames q

-- No sentinel, or exactly one at the end.
abbrev pub is_open : List Place → Bool
is_open [] = true
is_open (frame f ∷ q) = is_open q
is_open (sentinel ∷ q) = false

abbrev pub is_sealed : List Place → Bool
is_sealed [] = false
is_sealed (frame f ∷ q) = is_sealed q
is_sealed (sentinel ∷ []) = true
is_sealed (sentinel ∷ p ∷ q) = false

-- How far the worker has come, and with it the consumer.
abbrev pub Phase : Bool → Bool → List Place → List Frame → Type 0
Phase false finished queue rest = (finished ≡ false) × (is_open queue ≡ true)
Phase true false queue rest = (rest ≡ []) × (is_sealed queue ≡ true)
Phase true true queue rest = (rest ≡ []) × (queue ≡ [])

-- A state that can be reached: the queue keeps its bound, and delivered, queued and remaining frames
-- are, in this order, those of the source.
pub record IsReached (frames : List Frame) (error : Option String) (s : Bridge) : Type 0 where
  pub within : length s.queue ≤ capacity
  pub ordered : s.out ++ (queued_frames s.queue ++ s.rest) ≡ frames
  pub phase : Phase s.ended s.finished s.queue s.rest
  pub same_error : s.error ≡ error
  pub told : s.raised ≡ (if s.finished then error else none)

queued_frames-append :
    (p q : List Place) → queued_frames (p ++ q) ≡ queued_frames p ++ queued_frames q
queued_frames-append [] q = refl
queued_frames-append (frame f ∷ p) q = ap (λ l. f ∷ l) (queued_frames-append p q)
queued_frames-append (sentinel ∷ p) q = queued_frames-append p q

is_open-append :
    (q : List Place) (f : Frame) → is_open q ≡ true → is_open (q ++ frame f ∷ []) ≡ true
is_open-append [] f h = refl
is_open-append (frame g ∷ q) f h = is_open-append q f h
is_open-append (sentinel ∷ q) f h = cc

is_sealed-append : (q : List Place) → is_open q ≡ true → is_sealed (q ++ sentinel ∷ []) ≡ true
is_sealed-append [] h = refl
is_sealed-append (frame g ∷ q) h = is_sealed-append q h
is_sealed-append (sentinel ∷ q) h = cc

abbrev pub state :
    List Frame → Option String → Bool → List Place → List Frame → Bool → Option String → Bridge
state rest error ended queue out finished raised = record {
  rest = rest;
  error = error;
  ended = ended;
  queue = queue;
  out = out;
  finished = finished;
  raised = raised;
}

pub some_injective {ℓ} : {A : Type ℓ} (a b : A) → some a ≡ some b → a ≡ b
some_injective a b h = cc

-- Frames put at the end of the queue stay in order.
queued_last :
    (out : List Frame) (queue : List Place) (f : Frame) (rest : List Frame)
    → out ++ (queued_frames (queue ++ frame f ∷ []) ++ rest)
      ≡ out ++ (queued_frames queue ++ f ∷ rest)
queued_last out queue f rest =
    ap (λ l. out ++ l)
      (rw (queued_frames-append queue (frame f ∷ []))
        (append_assoc (queued_frames queue) (f ∷ []) rest))

queued_end : (queue : List Place) → queued_frames (queue ++ sentinel ∷ []) ≡ queued_frames queue
queued_end queue = queued_frames-append queue (sentinel ∷ []) ∙ append-nil (queued_frames queue)

module _ (frames : List Frame) (error : Option String) where
  pub start-IsReached : IsReached frames error (start frames error)
  start-IsReached = record {
    within = omega arith;
    ordered = refl;
    phase = (refl, refl);
    same_error = refl;
    told = refl;
  }

  put_next-IsReached :
      (rest : List Frame) (e : Option String) (ended : Bool) (queue : List Place) (out : List Frame)
      (finished : Bool) (raised : Option String) (t : Bridge)
      → leb capacity (length queue) ≡ false
      → IsReached frames error (state rest e ended queue out finished raised)
      → put_next (state rest e ended queue out finished raised) rest ended ≡ some t
      → IsReached frames error t
  unfolding put_next
  put_next-IsReached (f ∷ rest) e false queue out finished raised t room r h =
      subst (IsReached frames error) (some_injective _ t h) (record {
        within = ground (arith, length-append queue (frame f ∷ []), r.within);
        ordered = queued_last out queue f rest ∙ r.ordered;
        phase = (r.phase.0, is_open-append queue f r.phase.1);
        same_error = r.same_error;
        told = r.told;
      })
  put_next-IsReached (f ∷ rest) e true queue out false raised t room r h =
      absurd (ground (arith, r.phase.0))
  put_next-IsReached (f ∷ rest) e true queue out true raised t room r h =
      absurd (ground (arith, r.phase.0))
  put_next-IsReached [] e false queue out false raised t room r h =
      subst (IsReached frames error) (some_injective _ t h) (record {
        within = ground (arith, length-append queue (sentinel ∷ []), r.within);
        ordered = rw (queued_end queue) r.ordered;
        phase = (refl, is_sealed-append queue r.phase.1);
        same_error = r.same_error;
        told = r.told;
      })
  put_next-IsReached [] e false queue out true raised t room r h =
      absurd (ground (arith, r.phase.0))
  put_next-IsReached [] e true queue out finished raised t room r h = cc

  pub put-IsReached :
      (s t : Bridge) → IsReached frames error s → put_step s ≡ some t → IsReached frames error t
  unfolding put_step
  put-IsReached s t r h = elim (Bool-cases (leb capacity (length s.queue))) [
    | inl full ↦ absurd (ground (arith, full))
    | inr room ↦
        put_next-IsReached s.rest s.error s.ended s.queue s.out s.finished s.raised t room r
          (rw room at h)
  ]

  get_next-IsReached :
      (rest : List Frame) (e : Option String) (ended : Bool) (queue : List Place) (out : List Frame)
      (raised : Option String) (t : Bridge)
      → IsReached frames error (state rest e ended queue out false raised)
      → get_next (state rest e ended queue out false raised) queue ≡ some t
      → IsReached frames error t
  unfolding get_next
  get_next-IsReached rest e ended [] out raised t r h = cc
  get_next-IsReached rest e false (frame f ∷ queue) out raised t r h =
      subst (IsReached frames error) (some_injective _ t h) (record {
        within = ground (arith, r.within);
        ordered = append_assoc out (f ∷ []) (queued_frames queue ++ rest) ∙ r.ordered;
        phase = r.phase;
        same_error = r.same_error;
        told = r.told;
      })
  get_next-IsReached rest e true (frame f ∷ queue) out raised t r h =
      subst (IsReached frames error) (some_injective _ t h) (record {
        within = ground (arith, r.within);
        ordered = append_assoc out (f ∷ []) (queued_frames queue ++ rest) ∙ r.ordered;
        phase = r.phase;
        same_error = r.same_error;
        told = r.told;
      })
  get_next-IsReached rest e false (sentinel ∷ queue) out raised t r h =
      absurd (ground (arith, r.phase.1))
  get_next-IsReached rest e true (sentinel ∷ []) out raised t r h =
      subst (IsReached frames error) (some_injective _ t h) (record {
        within = ground (arith, r.within);
        ordered = r.ordered;
        phase = (r.phase.0, refl);
        same_error = r.same_error;
        told = r.same_error;
      })
  get_next-IsReached rest e true (sentinel ∷ p ∷ queue) out raised t r h =
      absurd (ground (arith, r.phase.1))

  pub get-IsReached :
      (s t : Bridge) → IsReached frames error s → get_step s ≡ some t → IsReached frames error t
  unfolding get_step
  get-IsReached s t r h = elim (Bool-cases s.finished) [
    | inl over ↦ absurd (ground (arith, over))
    | inr on ↦
        get_next-IsReached s.rest s.error s.ended s.queue s.out s.raised t
          (subst
            (λ b. IsReached frames error (state s.rest s.error s.ended s.queue s.out b s.raised)) on
            r)
          (unfold get_next in cc)
  ]
