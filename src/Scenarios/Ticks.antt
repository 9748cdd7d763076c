-- ===== src/Scenarios/Ticks.antt =====
-- A run of the ticker (ticker.go).
use gobft.Base.{◌≡◌, ◌++◌, refl, pos, [], ◌∷◌}
use gobft.Core.State.{TimeoutInfo, new_height, propose_step}
use gobft.Ticker.{
  Ticker, new_timeout_ticker, put_tick, is_ignored, take_tick, time_out, Run, begun, scheduled,
  ticked, timed_out,
}
use gobft.Ticker.Order.{IsOrdered, Run-IsOrdered}
use gobft.Ticker.Origin.{IsFromTicks, requested, oldest_first, Run-IsFromTicks}

abbrev round0 : TimeoutInfo
round0 = record { duration = pos 5; height = pos 1; round = pos 0; step = new_height }

abbrev proposing : TimeoutInfo
proposing = record { duration = pos 3; height = pos 1; round = pos 0; step = propose_step }

abbrev scheduled_0 : Ticker
scheduled_0 = put_tick new_timeout_ticker round0

abbrev waiting_0 : Ticker
waiting_0 = take_tick (record scheduled_0 { tick_chan = [] }) round0

abbrev proposed : Ticker
proposed = put_tick (time_out waiting_0) proposing

abbrev finished : Ticker
finished = take_tick (record proposed { tick_chan = [] }) proposing

two_ticks : Run (proposing ∷ round0 ∷ []) finished
unfolding put_tick take_tick time_out is_ignored
two_ticks = ticked proposing [] refl (
    scheduled proposing refl (timed_out refl (ticked round0 [] refl (scheduled round0 refl begun))))

Run-IsOrdered_example : IsOrdered (proposing ∷ round0 ∷ []) finished
Run-IsOrdered_example = Run-IsOrdered two_ticks

Run-IsFromTicks_example :
    (requested two_ticks ≡ oldest_first (proposing ∷ round0 ∷ []) ++ finished.tick_chan)
    × IsFromTicks (proposing ∷ round0 ∷ []) finished
Run-IsFromTicks_example = Run-IsFromTicks two_ticks
