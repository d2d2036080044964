-- ===== src/Policy/Windows.antt =====
-- backend/policy.py, _in_window: quiet hours that may pass midnight.
use domesticoracle.Prelude.{ℕ, ◌+◌, ◌-◌, ◌%◌, ◌<◌, ◌≡◌, ◌≢◌, false, not, arith, ltb}
use domesticoracle.Prelude.Int.{pos}
use domesticoracle.Policy.Rules.{in_window}

-- For hours of the day the window holds the hours that lie, going round the clock from its start,
-- before its end.
pub in_window_clockwise :
    (start_hour end_hour now_hour : ℕ)
    → start_hour < 24
    → end_hour < 24
    → now_hour < 24
    → in_window (pos start_hour) (pos end_hour) (pos now_hour)
      ≡ ltb ((now_hour + 24 - start_hour) % 24) ((end_hour + 24 - start_hour) % 24)
unfolding in_window
in_window_clockwise start_hour end_hour now_hour s e n = ground arith

-- A window and the one with its ends exchanged part the day: each hour is in exactly one of them. A
-- window whose ends are equal is empty.
pub in_window_parts_the_day :
    (start_hour end_hour now_hour : ℕ)
    → start_hour ≢ end_hour
    → (in_window (pos start_hour) (pos end_hour) (pos now_hour)
        ≡ not (in_window (pos end_hour) (pos start_hour) (pos now_hour)))
      × (in_window (pos start_hour) (pos start_hour) (pos now_hour) ≡ false)
unfolding in_window
in_window_parts_the_day start_hour end_hour now_hour ne = (ground arith, ground arith)
