-- ===== src/Core/Voting.antt =====
-- What a validator sends at its prevote step (bftcore.go).
use gobft.Base.{◌≡◌, refl, ap, ◌∙◌, ℤ, pos, leb_ℤ, true, false, none, some, ◌∷◌, arith}
use gobft.Message.{ProposedData, prevote_type, Vote, vote_msg, new_vote}
use gobft.Config.{fetch_interval}
use gobft.Core.State.{
  Core, Env, broadcast, schedule, is_validator, is_behind, prevote_step, prevote_fetch,
  update_round_step, schedule_timeout,
}
use gobft.Core.Frames.{sign_add_vote-Sends, sign_add_vote-effects, signed_vote}
use gobft.Core.Enter.{prevote_choice, prevote_data, do_prevote, enter_prevote_fetch, enter_prevote}

-- The core is locked on some data at some round.
pub record IsLocked (c : Core) (round : ℤ) (d : ProposedData) : Type 0 where
  pub at_round : c.locked_round ≡ round
  pub real_round : leb_ℤ (pos 0) round ≡ true
  pub proposal : Vote
  pub is_locked : c.locked_proposal ≡ some proposal
  pub same_data : proposal.proposed ≡ d

prevote_data-locked :
    (env : Env) (c : Core) (round : ℤ) (d : ProposedData)
    → IsLocked c round d
    → c.byzantine_prevote ≡ none
    → prevote_data env c ≡ d
unfolding prevote_data prevote_choice
prevote_data-locked env c round d l b = ground arith

-- A locked validator, without a byzantine prevote set, that enters its prevote step for a round
-- ahead broadcasts one prevote, signed, for the data that it is locked on, whatever was proposed;
-- its lock does not change, and it then waits for votes.
pub enter_prevote-IsLocked :
    (env : Env) (c : Core) (height round lock_round : ℤ) (d : ProposedData)
    → IsLocked c lock_round d
    → c.byzantine_prevote ≡ none
    → is_validator env c ≡ true
    → is_behind c height round prevote_step ≡ false
    → let c' = enter_prevote env c height round in
      (c'.effects
        ≡ schedule (record {
          duration = fetch_interval;
          height = height;
          round = round;
          step = prevote_fetch;
        })
          ∷ broadcast (
              vote_msg (
                signed_vote env c
                  (new_vote env.now prevote_type c.height c.round d c.last_committed_data)))
          ∷ c.effects)
      × IsLocked c' lock_round d
      × (c'.round ≡ round)
      × (c'.step ≡ prevote_fetch)
unfolding enter_prevote enter_prevote_fetch do_prevote update_round_step schedule_timeout
enter_prevote-IsLocked env c height round lock_round d l b v ahead =
    let same = prevote_data-locked env c lock_round d l b in
    let vote =
      new_vote env.now prevote_type c.height c.round (prevote_data env c) c.last_committed_data in
    let kept = sign_add_vote-Sends env c vote in
    let sent =
      sign_add_vote-effects env c vote
      ∙ rw v (
          ap
            (λ x.
              broadcast (
                vote_msg (
                  signed_vote env c
                    (new_vote env.now prevote_type c.height c.round x c.last_committed_data)))
              ∷ c.effects)
            same) in
    rw ahead (
      ap
          (schedule
            (record {
              duration = fetch_interval;
              height = height;
              round = round;
              step = prevote_fetch;
            })
            ∷◌)
          sent,
      record {
        at_round = kept.locked_round ∙ l.at_round;
        real_round = l.real_round;
        proposal = l.proposal;
        is_locked = kept.locked_proposal ∙ l.is_locked;
        same_data = l.same_data;
      },
      refl,
      refl,
    )
