-- ===== src/Ticker/Order.antt =====
-- The order in which the ticker's timeouts fire (ticker.go).
use gobft.Base.{
  ◌≡◌, inl, inr, ltb_ℤ, ◌==ℤ◌, leb, Bool, true, false, ◌&&◌, ◌||◌, List, [], ◌∷◌, All, All-map,
  arith, Bool-cases,
}
use gobft.Core.State.{TimeoutInfo}
use gobft.Ticker.{
  Ticker, put_tick, is_ignored, take_tick, time_out, stop_ticker, Run, begun, scheduled, ticked,
  timed_out, halted,
}

-- By height, then by round, then by step.
abbrev pub not_after : TimeoutInfo → TimeoutInfo → Bool
not_after a b =
    ltb_ℤ a.height b.height
    || (a.height ==ℤ b.height
        && (ltb_ℤ a.round b.round || (a.round ==ℤ b.round && leb a.step b.step)))

not_after_refl : (a : TimeoutInfo) → not_after a a ≡ true
not_after_refl a = ground arith

not_after_trans :
    (a b c : TimeoutInfo) → not_after a b ≡ true → not_after b c ≡ true → not_after a c ≡ true
not_after_trans a b c h k = ground arith

accepted_after : (ti newti : TimeoutInfo) → is_ignored ti newti ≡ false → not_after ti newti ≡ true
unfolding is_ignored
accepted_after ti newti h = ground arith

ignored_before : (ti newti : TimeoutInfo) → is_ignored ti newti ≡ true → not_after newti ti ≡ true
unfolding is_ignored
ignored_before ti newti h = ground arith

-- A list of timeouts that does not go forward, from a bound.
abbrev pub Descending : TimeoutInfo → List TimeoutInfo → Type 0
Descending bound [] = Unit
Descending bound (x ∷ xs) = (not_after x bound ≡ true) × Descending x xs

raise :
    (bound bound' : TimeoutInfo) (xs : List TimeoutInfo)
    → not_after bound bound' ≡ true
    → Descending bound xs
    → Descending bound' xs
raise bound bound' [] h d = tt
raise bound bound' (x ∷ xs) h d = (not_after_trans x bound bound' d.0 h, d.1)

-- The timeouts that have fired, and the pending one, in order; and the ticks taken so far.
pub record IsOrdered (taken : List TimeoutInfo) (t : Ticker) : Type 0 where
  pub fired : Descending t.ti t.tocks
  pub latest : All (λ x. not_after x t.ti ≡ true) taken

ticked-IsOrdered :
    (taken : List TimeoutInfo) (t : Ticker) (newti : TimeoutInfo) (rest : List TimeoutInfo)
    → IsOrdered taken t
    → IsOrdered (newti ∷ taken) (take_tick (record t { tick_chan = rest }) newti)
unfolding take_tick
ticked-IsOrdered taken t newti rest h = elim (Bool-cases (is_ignored t.ti newti)) [
  | inl e ↦ rw e (record { fired = h.fired; latest = (ignored_before t.ti newti e, h.latest) })
  | inr e ↦
      let later = accepted_after t.ti newti e in
      rw e (record {
        fired = raise t.ti newti t.tocks later h.fired;
        latest = (
          not_after_refl newti,
          All-map _ _ taken (λ x k. not_after_trans x t.ti newti k later) h.latest,
        );
      })
]

-- However scheduling, ticking, firing and stopping interleave, the timeouts fire in the order of height,
-- round and step, none after the one that the ticker keeps; and the one that it keeps is the latest of
-- all the ticks that it has taken.
pub Run-IsOrdered : {taken : List TimeoutInfo} {t : Ticker} → Run taken t → IsOrdered taken t
unfolding put_tick time_out stop_ticker
Run-IsOrdered begun = record { fired = tt; latest = tt }
Run-IsOrdered (scheduled newti room r) =
    let h = Run-IsOrdered r in record { fired = h.fired; latest = h.latest }
Run-IsOrdered (ticked {taken} {t} newti rest e r) =
    ticked-IsOrdered taken t newti rest (Run-IsOrdered r)
Run-IsOrdered (timed_out {taken} {t} e r) =
    let h = Run-IsOrdered r in record { fired = (not_after_refl t.ti, h.fired); latest = h.latest }
Run-IsOrdered (halted r) = let h = Run-IsOrdered r in record { fired = h.fired; latest = h.latest }
