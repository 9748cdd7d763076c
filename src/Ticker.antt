-- ===== src/Ticker.antt =====
-- ticker.go: the ticker, which keeps the one timeout that is pending. The channels are lists, and the
-- goroutine is a relation of steps: a caller schedules, the routine takes a tick, the timer fires, a
-- caller stops. A tock is put on its channel by a goroutine of its own; `tocks` has the newest first.
pub mod Order
pub mod Origin
use gobft.Base.{
  ℕ, ℤ, pos, ltb_ℤ, ◌==ℤ◌, ltb, ◌==◌, ◌≡◌, Bool, true, false, ◌&&◌, ◌||◌, not, List, [], ◌∷◌, ◌++◌,
  length, if◌then◌else◌,
}
use gobft.Core.State.{TimeoutInfo, prevote_fetch, precommit_fetch}

pub record Ticker : Type 0 where
  pub ti : TimeoutInfo
  -- whether the timer runs
  pub armed : Bool
  pub tick_chan : List TimeoutInfo
  pub tocks : List TimeoutInfo
  pub stopped : Bool

abbrev pub tick_tock_buffer_size : ℕ
tick_tock_buffer_size = 10

-- `NewTimeoutTicker`: the zero timeout, and a timer that is stopped.
abbrev pub new_timeout_ticker : Ticker
new_timeout_ticker = record {
  ti = record { duration = pos 0; height = pos 0; round = pos 0; step = 0 };
  armed = false;
  tick_chan = [];
  tocks = [];
  stopped = false;
}

-- `ScheduleTimeout`, when the channel has room.
unfoldable pub put_tick : Ticker → TimeoutInfo → Ticker
put_tick t newti = record t { tick_chan = t.tick_chan ++ newti ∷ [] }

-- Whether a tick is ignored: for an old height, round or step. A fetch step may be repeated.
unfoldable pub is_ignored : TimeoutInfo → TimeoutInfo → Bool
is_ignored ti newti =
    ltb_ℤ newti.height ti.height
    || (newti.height ==ℤ ti.height
        && (ltb_ℤ newti.round ti.round
            || (newti.round ==ℤ ti.round
                && (ltb 0 ti.step
                    && (ltb newti.step ti.step
                        || (newti.step == ti.step
                            && (not (newti.step == precommit_fetch)
                                && not (newti.step == prevote_fetch))))))))

-- The first case of the loop of `timeoutRoutine`.
unfoldable pub take_tick : Ticker → TimeoutInfo → Ticker
unfolding is_ignored
take_tick t newti = if is_ignored t.ti newti then t else record t { ti = newti; armed = true }

-- The second case: the timer has fired.
unfoldable pub time_out : Ticker → Ticker
time_out t = record t { armed = false; tocks = t.ti ∷ t.tocks }

-- `Stop`
unfoldable pub stop_ticker : Ticker → Ticker
stop_ticker t = record t { armed = false; stopped = true }

-- A ticker after some steps, with the ticks that the routine has taken, the newest first.
pub data Run : List TimeoutInfo → Ticker → Type 0 where
  begun : Run [] new_timeout_ticker
  scheduled :
      {taken : List TimeoutInfo} {t : Ticker} (newti : TimeoutInfo)
      → ltb (length t.tick_chan) tick_tock_buffer_size ≡ true
      → Run taken t
      → Run taken (put_tick t newti)
  ticked :
      {taken : List TimeoutInfo} {t : Ticker} (newti : TimeoutInfo) (rest : List TimeoutInfo)
      → t.tick_chan ≡ newti ∷ rest
      → Run taken t
      → Run (newti ∷ taken) (take_tick (record t { tick_chan = rest }) newti)
  timed_out :
      {taken : List TimeoutInfo} {t : Ticker}
      → t.armed ≡ true
      → Run taken t
      → Run taken (time_out t)
  halted : {taken : List TimeoutInfo} {t : Ticker} → Run taken t → Run taken (stop_ticker t)
