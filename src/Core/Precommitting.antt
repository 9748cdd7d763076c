-- ===== src/Core/Precommitting.antt =====
-- What a validator sends at its precommit step, and with what lock (bftcore.go).
use gobft.Base.{
  ◌≡◌, refl, sym, ap, ◌∙◌, subst, ℤ, pos, List, negsuc, true, false, Option, none, some, ◌∷◌, done,
  >>=-run,
}
use gobft.Message.{PubKey, ProposedData, precommit_type, Vote, vote_msg, new_vote}
use gobft.Config.{fetch_interval}
use gobft.HeightVoteSet.{HeightVoteSet}
use gobft.Core.State.{
  Core, Env, broadcast, schedule, is_validator, is_behind, precommit_step, precommit_fetch,
  update_round_step, schedule_timeout,
}
use gobft.Core.Frames.{sign_add_vote-Sends, sign_add_vote-effects, signed_vote}
use gobft.Core.Precommit.{precommit_choice, end_precommit, enter_precommit, enter_precommit_fetch}
use gobft.Core.Within.{IsSound}
use gobft.Core.Transitions.{can_precommit}
use gobft.Core.Locks.{PrecommitCase, precommit_choice-PrecommitCase}

-- The core that `enterPrecommit` leaves, by the choice that it made.
pub record Precommitted (env : Env) (c c' : Core) (height round : ℤ) (chosen : Core × ProposedData)
    : Type 0 where
  pub sent :
      c'.effects
      ≡ schedule (record {
        duration = fetch_interval;
        height = c.height;
        round = round;
        step = precommit_fetch;
      })
        ∷ broadcast (
            vote_msg (
              signed_vote env c
                (new_vote env.now precommit_type height round chosen.1 c.last_committed_data)))
        ∷ c.effects
  pub locked_round : c'.locked_round ≡ chosen.0.locked_round
  pub locked_proposal : c'.locked_proposal ≡ chosen.0.locked_proposal
  pub at_round : c'.round ≡ round
  pub at_step : c'.step ≡ precommit_fetch

-- The core with another lock.
abbrev relocked : Core → ℤ → Option Vote → Core
relocked c round proposal = record c { locked_round = round; locked_proposal = proposal }

end_precommit-Precommitted :
    (env : Env) (c : Core) (height round lock_round : ℤ) (locked : Option Vote) (d : ProposedData)
    → is_validator env c ≡ true
    → Precommitted env c
        (end_precommit env height round (relocked c lock_round locked, d))
        height
        round
        (relocked c lock_round locked, d)
unfolding end_precommit enter_precommit_fetch update_round_step schedule_timeout is_validator
end_precommit-Precommitted env c height round lock_round locked d v =
    let vote = new_vote env.now precommit_type height round d c.last_committed_data in
    let start = relocked c lock_round locked in
    let kept = sign_add_vote-Sends env start vote in
    let sent = sign_add_vote-effects env start vote in
    record {
      sent = rw (kept.height, sent, v);
      locked_round = kept.locked_round;
      locked_proposal = kept.locked_proposal;
      at_round = refl;
      at_step = refl;
    }

own_data :
    (chosen : Core × ProposedData) (c : Core) (d : ProposedData)
    → chosen ≡ (c, d)
    → chosen ≡ (c, chosen.1)
own_data chosen c d e = e ∙ ap (λ x. (c, x)) (sym (ap (λ (x : Core × ProposedData). x.1) e))

chosen_lock :
    (c : Core) (votes : HeightVoteSet) (round : ℤ) (chosen : Core × ProposedData)
    → PrecommitCase c votes round chosen
    → (lock_round : ℤ) × (locked : Option Vote) × (chosen
        ≡ (relocked c lock_round locked, chosen.1))
chosen_lock c votes round chosen (PrecommitCase.no_polka m e) =
    (c.locked_round, c.locked_proposal, own_data chosen _ _ e)
chosen_lock c votes round chosen (PrecommitCase.relock d locked m n l s holds e) =
    (round, c.locked_proposal, own_data chosen _ _ e)
chosen_lock c votes round chosen (PrecommitCase.lock d p m n l s free e) =
    (round, some p, own_data chosen _ _ e)
chosen_lock c votes round chosen (PrecommitCase.unknown d m n l free e) =
    (negsuc 0, none, own_data chosen _ _ e)

-- In a sound core, the choice of `enterPrecommit` in the core's round does not panic, and it is fixed by
-- the majority of the prevotes of that round. Without one it precommits nil and keeps the lock. On one
-- for the data that the core is locked on it precommits that and moves the lock to the round. On one for
-- other data with a known proposal it precommits that and locks on it at the round. On one for other
-- data whose proposal is not known it precommits nil and gives the lock up.
pub sound_choice :
    (env : Env) (members : List PubKey) (c : Core) (s : IsSound env members c)
    → (result : Core × ProposedData) × (precommit_choice c (pos s.n) ≡ done result)
      × PrecommitCase c s.votes (pos s.n) result
sound_choice env members c s =
    precommit_choice-PrecommitCase c s.votes (pos s.n)
      (can_precommit env members s.within c.height s.no_polka)

-- A validator whose core is sound, and that enters its precommit step in its round, does not panic: it
-- broadcasts one signed precommit, for the data that `PrecommitCase` fixes by the majority of the
-- prevotes of that round, by its lock and by its proposal; it keeps exactly the lock fixed there, and
-- then waits for votes.
pub enter_precommit_lem :
    (env : Env) (members : List PubKey) (c : Core) (s : IsSound env members c) (height : ℤ)
    → is_validator env c ≡ true
    → is_behind c height (pos s.n) precommit_step ≡ false
    → (c' : Core) × (chosen : Core × ProposedData) × (enter_precommit env c height (pos s.n)
        ≡ done c')
      × PrecommitCase c s.votes (pos s.n) chosen
      × Precommitted env c c' height (pos s.n) chosen
unfolding enter_precommit
enter_precommit_lem env members c s height v ahead =
    let round = pos s.n in
    let (chosen, choice, case) = sound_choice env members c s in
    let (lock_round, locked, same) = chosen_lock c s.votes round chosen case in
    (
      end_precommit env height round chosen,
      chosen,
      rw ahead (>>=-run (precommit_choice c round) _ choice),
      case,
      subst (λ x. Precommitted env c (end_precommit env height round x) height round x) (sym same)
          (end_precommit-Precommitted env c height round lock_round locked chosen.1 v),
    )
