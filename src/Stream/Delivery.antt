-- ===== src/Stream/Delivery.antt =====
-- Every interleaving of worker and consumer delivers the frames in order, and ends.
use domesticoracle.Prelude.{
  ℕ, String, Bool, true, false, Option, none, some, List, [], ◌∷◌, ◌++◌, ◌≡◌, refl, sym, ◌∙◌, suc,
  zero, ◌+◌, ◌*◌, ◌≤◌, leb, length, length-append, arith, if◌then◌else◌, subst, Bool-cases, inl,
  inr,
}
use mathlib.Core.List.{append-nil}
use domesticoracle.Stream.Frames.{Frame}
use domesticoracle.Stream.Pump.{
  Place, frame, sentinel, Bridge, capacity, start, put_next, put_step, get_next, get_step, Run,
  here, put, got,
}
use domesticoracle.Stream.Steps.{
  IsReached, state, queued_frames, some_injective, start-IsReached, put-IsReached, get-IsReached,
}

-- The moves that are left: two for each frame still to be put, one for each place that is taken, two
-- for the sentinel.
abbrev left : Bridge → ℕ
left s = 2 * length s.rest + length s.queue + (if s.ended then 0 else 2)

put_next-left :
    (rest : List Frame) (e : Option String) (ended : Bool) (queue : List Place) (out : List Frame)
    (finished : Bool) (raised : Option String) (t : Bridge)
    → put_next (state rest e ended queue out finished raised) rest ended ≡ some t
    → suc (left t) ≡ left (state rest e ended queue out finished raised)
unfolding put_next
put_next-left (f ∷ rest) e ended queue out finished raised t h =
    subst (λ b. suc (left b) ≡ left (state (f ∷ rest) e ended queue out finished raised))
      (some_injective _ t h) (omega (arith, length-append queue (frame f ∷ [])))
put_next-left [] e false queue out finished raised t h =
    subst (λ b. suc (left b) ≡ left (state [] e false queue out finished raised))
      (some_injective _ t h) (omega (arith, length-append queue (sentinel ∷ [])))
put_next-left [] e true queue out finished raised t h = cc

put_step-left : (s t : Bridge) → put_step s ≡ some t → suc (left t) ≡ left s
unfolding put_step
put_step-left s t h = elim (Bool-cases (leb capacity (length s.queue))) [
  | inl full ↦ absurd (ground (arith, full))
  | inr room ↦
      put_next-left s.rest s.error s.ended s.queue s.out s.finished s.raised t (rw room at h)
]

get_next-left :
    (rest : List Frame) (e : Option String) (ended : Bool) (queue : List Place) (out : List Frame)
    (finished : Bool) (raised : Option String) (t : Bridge)
    → get_next (state rest e ended queue out finished raised) queue ≡ some t
    → suc (left t) ≡ left (state rest e ended queue out finished raised)
unfolding get_next
get_next-left rest e ended [] out finished raised t h = cc
get_next-left rest e ended (frame f ∷ queue) out finished raised t h =
    subst (λ b. suc (left b) ≡ left (state rest e ended (frame f ∷ queue) out finished raised))
      (some_injective _ t h) (omega arith)
get_next-left rest e ended (sentinel ∷ queue) out finished raised t h =
    subst (λ b. suc (left b) ≡ left (state rest e ended (sentinel ∷ queue) out finished raised))
      (some_injective _ t h) (omega arith)

get_step-left : (s t : Bridge) → get_step s ≡ some t → suc (left t) ≡ left s
unfolding get_step
get_step-left s t h = elim (Bool-cases s.finished) [
  | inl over ↦ absurd (ground (arith, over))
  | inr on ↦ get_next-left s.rest s.error s.ended s.queue s.out s.finished s.raised t (cc)
]

run-left : (k : ℕ) (r s : Bridge) → Run k r s → k + left s ≡ left r
run-left zero r s (here _) = omega arith
run-left (suc k) r t (put _ _ s _ before step) =
    omega (arith, run-left k r s before, put_step-left s t step)
run-left (suc k) r t (got _ _ s _ before step) =
    omega (arith, run-left k r s before, get_step-left s t step)

run-IsReached :
    (frames : List Frame) (error : Option String) (k : ℕ) (r s : Bridge)
    → IsReached frames error r
    → Run k r s
    → IsReached frames error s
run-IsReached frames error k r s i (here _) = i
run-IsReached frames error k r t i (put n _ s _ before step) =
    put-IsReached frames error s t (run-IsReached frames error n r s i before) step
run-IsReached frames error k r t i (got n _ s _ before step) =
    get-IsReached frames error s t (run-IsReached frames error n r s i before) step

-- Where neither can move, all is delivered.
stuck-delivered :
    (frames : List Frame) (error : Option String) (rest : List Frame) (e : Option String)
    (ended : Bool) (queue : List Place) (out : List Frame) (finished : Bool)
    (raised : Option String)
    → IsReached frames error (state rest e ended queue out finished raised)
    → put_step (state rest e ended queue out finished raised) ≡ none
    → get_step (state rest e ended queue out finished raised) ≡ none
    → (finished ≡ true) × (out ≡ frames) × (raised ≡ error)
unfolding put_step get_step
stuck-delivered frames error [] e true [] out true raised r p g =
    (refl, sym (append-nil out) ∙ r.ordered, r.told)
stuck-delivered frames error (f ∷ rest) e true [] out true raised r p g =
    absurd (ground (arith, r.phase.0))
stuck-delivered frames error rest e true (x ∷ queue) out true raised r p g =
    absurd (ground (arith, r.phase.1))
stuck-delivered frames error rest e false queue out true raised r p g =
    absurd (ground (arith, r.phase.0))
stuck-delivered frames error rest e true [] out false raised r p g =
    absurd (ground (arith, r.phase.1))
stuck-delivered frames error (f ∷ rest) e false [] out false raised r p g = cc
stuck-delivered frames error [] e false [] out false raised r p g = cc
stuck-delivered frames error rest e ended (frame f ∷ queue) out false raised r p g = cc
stuck-delivered frames error rest e ended (sentinel ∷ queue) out false raised r p g = cc

module _ (frames : List Frame) (error : Option String) where
  -- At any moment of any interleaving the queue holds at most 64 places, and what is delivered, what
  -- is queued and what is still to come are, in this order, the frames of the source.
  pub bridge_in_order :
      (k : ℕ) (s : Bridge)
      → Run k (start frames error) s
      → (length s.queue ≤ capacity) × (s.out ++ (queued_frames s.queue ++ s.rest) ≡ frames)
  bridge_in_order k s run =
      let i = run-IsReached frames error k _ s (start-IsReached frames error) run in
      (i.within, i.ordered)

  -- No interleaving that delivers n frames has more than 2 n + 2 moves.
  pub bridge_ends : (k : ℕ) (s : Bridge) → Run k (start frames error) s → k ≤ 2 * length frames + 2
  bridge_ends k s run = omega (arith, run-left k _ s run)

  -- An interleaving that can go no further has delivered all the frames, in order, and the consumer's
  -- iteration has ended with the exception of the source, if it had one.
  pub bridge_delivers :
      (k : ℕ) (s : Bridge)
      → Run k (start frames error) s
      → put_step s ≡ none
      → get_step s ≡ none
      → (s.finished ≡ true) × (s.out ≡ frames) × (s.raised ≡ error)
  bridge_delivers k s run p g =
      stuck-delivered frames error s.rest s.error s.ended s.queue s.out s.finished s.raised
        (run-IsReached frames error k _ s (start-IsReached frames error) run) p g
