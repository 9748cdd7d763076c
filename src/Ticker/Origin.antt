-- ===== src/Ticker/Origin.antt =====
-- Which timeouts fire (ticker.go): only those that a caller asked for, which the routine takes in the
-- order of the calls.
use mathlib.Core.List.{Memᴰ, append_assoc}
use gobft.Base.{
  ◌≡◌, refl, sym, ap, ◌∙◌, [], ◌++◌, inl, inr, true, List, ◌∷◌, All, All-map, Bool-cases,
}
use gobft.Core.State.{TimeoutInfo}
use gobft.Ticker.{
  Ticker, put_tick, is_ignored, take_tick, time_out, stop_ticker, Run, begun, scheduled, ticked,
  timed_out, halted,
}

-- What has fired, and what the timer runs for, is among the ticks taken.
pub record IsFromTicks (taken : List TimeoutInfo) (t : Ticker) : Type 0 where
  pub fired : All (λ x. Memᴰ x taken) t.tocks
  pub pending : t.armed ≡ true → Memᴰ t.ti taken

ticked-IsFromTicks :
    (taken : List TimeoutInfo) (t : Ticker) (newti : TimeoutInfo) (rest : List TimeoutInfo)
    → IsFromTicks taken t
    → IsFromTicks (newti ∷ taken) (take_tick (record t { tick_chan = rest }) newti)
unfolding take_tick
ticked-IsFromTicks taken t newti rest h =
    let fired = All-map _ (λ x. Memᴰ x (newti ∷ taken)) t.tocks (λ x m. Memᴰ.tail m) h.fired in
    elim (Bool-cases (is_ignored t.ti newti)) [
      | inl e ↦ rw e (record { fired = fired; pending = λ a. Memᴰ.tail (h.pending a) })
      | inr e ↦ rw e (record { fired = fired; pending = λ a. Memᴰ.head refl })
    ]

IsFromTicks-Run : {taken : List TimeoutInfo} {t : Ticker} → Run taken t → IsFromTicks taken t
unfolding put_tick time_out stop_ticker
IsFromTicks-Run begun = record { fired = tt; pending = λ a. cc }
IsFromTicks-Run (scheduled newti room r) =
    let h = IsFromTicks-Run r in record { fired = h.fired; pending = h.pending }
IsFromTicks-Run (ticked {taken} {t} newti rest e r) =
    ticked-IsFromTicks taken t newti rest (IsFromTicks-Run r)
IsFromTicks-Run (timed_out {taken} {t} e r) =
    let h = IsFromTicks-Run r in record { fired = (h.pending e, h.fired); pending = λ a. cc }
IsFromTicks-Run (halted r) =
    let h = IsFromTicks-Run r in record { fired = h.fired; pending = λ a. cc }

-- What the calls of `ScheduleTimeout` asked for, the first call first.
unfoldable pub requested : {taken : List TimeoutInfo} {t : Ticker} → Run taken t → List TimeoutInfo
requested begun = []
requested (scheduled newti room r) = requested r ++ newti ∷ []
requested (ticked newti rest e r) = requested r
requested (timed_out e r) = requested r
requested (halted r) = requested r

unfoldable pub oldest_first : List TimeoutInfo → List TimeoutInfo
oldest_first [] = []
oldest_first (x ∷ l) = oldest_first l ++ x ∷ []

left_in_channel :
    (t : Ticker) (newti : TimeoutInfo) (rest : List TimeoutInfo)
    → (take_tick (record t { tick_chan = rest }) newti).tick_chan ≡ rest
unfolding take_tick
left_in_channel t newti rest = elim (Bool-cases (is_ignored t.ti newti)) [
  | inl e ↦ rw e
  | inr e ↦ rw e
]

requested_lem :
    {taken : List TimeoutInfo} {t : Ticker} (r : Run taken t)
    → requested r ≡ oldest_first taken ++ t.tick_chan
unfolding requested oldest_first put_tick time_out stop_ticker
requested_lem begun = refl
requested_lem (scheduled {taken} {t} newti room r) =
    ap (λ l. l ++ newti ∷ []) (requested_lem r)
    ∙ append_assoc (oldest_first taken) t.tick_chan (newti ∷ [])
requested_lem (ticked {taken} {t} newti rest e r) =
    requested_lem r
    ∙ ap (λ l. oldest_first taken ++ l) e
    ∙ sym (append_assoc (oldest_first taken) (newti ∷ []) rest)
    ∙ ap (λ l. (oldest_first taken ++ newti ∷ []) ++ l) (sym (left_in_channel t newti rest))
requested_lem (timed_out e r) = requested_lem r
requested_lem (halted r) = requested_lem r

-- In any run of the ticker the timeouts that `ScheduleTimeout` was called with are, in the order of the
-- calls, those that the routine has taken and then those that wait in the channel; and every timeout
-- that fires, and the one that the timer runs for, is among those taken.
pub Run-IsFromTicks :
    {taken : List TimeoutInfo} {t : Ticker} (r : Run taken t)
    → (requested r ≡ oldest_first taken ++ t.tick_chan) × IsFromTicks taken t
Run-IsFromTicks r = (requested_lem r, IsFromTicks-Run r)
