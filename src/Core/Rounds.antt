-- ===== src/Core/Rounds.antt =====
-- `enterNewRound` and `enterPropose` (bftcore.go): a new round starts without a panic.
use gobft.Base.{◌≡◌, refl, ◌∙◌, leb, inl, inr, ℤ, true, false, not, ◌==◌, Bool-cases, int_key}
use gobft.Message.{new_vote, proposal_type}
use gobft.Config.{propose}
use gobft.Committee.{get_self_pub_key}
use gobft.Core.State.{
  Core, RoundStepType, Env, validators_of, committee_of, is_behind, propose_step, prevote_step,
  update_round_step, schedule_timeout,
}
use gobft.Core.Frames.{Sends, sign_add_vote-Sends}
use gobft.Core.Enter.{
  do_prevote, enter_prevote_fetch, enter_prevote, proposal_data, do_propose, is_ready_to_prevote,
  end_propose, enter_propose,
}

-- Two cores with the same height, votes, lock and decisions.
pub record SameHeight (c c' : Core) : Type 0 where
  pub height : c'.height ≡ c.height
  pub locked_round : c'.locked_round ≡ c.locked_round
  pub locked_proposal : c'.locked_proposal ≡ c.locked_proposal
  pub votes : c'.votes ≡ c.votes
  pub commit_round : c'.commit_round ≡ c.commit_round
  pub last_commit : c'.last_commit ≡ c.last_commit
  pub last_committed_data : c'.last_committed_data ≡ c.last_committed_data
  pub committed : c'.committed ≡ c.committed

pub SameHeight-refl : (c : Core) → SameHeight c c
SameHeight-refl c = record {
  height = refl;
  locked_round = refl;
  locked_proposal = refl;
  votes = refl;
  commit_round = refl;
  last_commit = refl;
  last_committed_data = refl;
  committed = refl;
}

pub SameHeight-trans : {a b c : Core} → SameHeight a b → SameHeight b c → SameHeight a c
SameHeight-trans p q = record {
  height = q.height ∙ p.height;
  locked_round = q.locked_round ∙ p.locked_round;
  locked_proposal = q.locked_proposal ∙ p.locked_proposal;
  votes = q.votes ∙ p.votes;
  commit_round = q.commit_round ∙ p.commit_round;
  last_commit = q.last_commit ∙ p.last_commit;
  last_committed_data = q.last_committed_data ∙ p.last_committed_data;
  committed = q.committed ∙ p.committed;
}

pub sent-SameHeight : {c c' : Core} → Sends c c' → SameHeight c c'
sent-SameHeight s = record {
  height = s.height;
  locked_round = s.locked_round;
  locked_proposal = s.locked_proposal;
  votes = s.votes;
  commit_round = s.commit_round;
  last_commit = s.last_commit;
  last_committed_data = s.last_committed_data;
  committed = s.committed;
}

do_prevote-SameHeight : (env : Env) (c : Core) → SameHeight c (do_prevote env c)
unfolding do_prevote
do_prevote-SameHeight env c = sent-SameHeight (sign_add_vote-Sends env c _)

-- `enterPrevote` changes neither the votes nor the lock; it may move on to its round and step.
pub enter_prevote-SameHeight :
    (env : Env) (c : Core) (height round : ℤ) → SameHeight c (enter_prevote env c height round)
unfolding enter_prevote enter_prevote_fetch update_round_step schedule_timeout
enter_prevote-SameHeight env c height round =
    elim (Bool-cases (is_behind c height round prevote_step)) [
      | inl e ↦ rw e (SameHeight-refl c)
      | inr e ↦
          let s = do_prevote-SameHeight env c in
          rw e (record {
            height = s.height;
            locked_round = s.locked_round;
            locked_proposal = s.locked_proposal;
            votes = s.votes;
            commit_round = s.commit_round;
            last_commit = s.last_commit;
            last_committed_data = s.last_committed_data;
            committed = s.committed;
          })
    ]

-- A core that is in this round, at its propose step or a later one.
pub record IsInRound (c : Core) (round : ℤ) : Type 0 where
  pub at_round : c.round ≡ round
  pub past_propose : leb propose_step c.step ≡ true

enter_prevote-IsInRound :
    (env : Env) (c : Core) (height round : ℤ)
    → IsInRound c round
    → IsInRound (enter_prevote env c height round) round
unfolding enter_prevote enter_prevote_fetch update_round_step schedule_timeout
enter_prevote-IsInRound env c height round h =
    elim (Bool-cases (is_behind c height round prevote_step)) [
      | inl e ↦ rw e h
      | inr e ↦ rw e (record { at_round = refl; past_propose = refl })
    ]

end_propose-SameHeight :
    (env : Env) (c : Core) (height round : ℤ)
    → SameHeight c (end_propose env c height round)
      × IsInRound (end_propose env c height round) round
unfolding end_propose update_round_step
end_propose-SameHeight env c height round =
    let c' : Core = record c { round = round; step = propose_step; in_fetch = false } in
    let here : IsInRound c' round = record { at_round = refl; past_propose = refl } in
    let same : SameHeight c c' = record {
      height = refl;
      locked_round = refl;
      locked_proposal = refl;
      votes = refl;
      commit_round = refl;
      last_commit = refl;
      last_committed_data = refl;
      committed = refl;
    } in
    elim (Bool-cases (is_ready_to_prevote c')) [
      | inl e ↦ rw e (
        SameHeight-trans same (enter_prevote-SameHeight env c' height round),
        enter_prevote-IsInRound env c' height round here,
      )
      | inr e ↦ rw e (same, here)
    ]

do_propose-SameHeight :
    (env : Env) (c : Core) (height round : ℤ) → SameHeight c (do_propose env c height round)
unfolding do_propose
do_propose-SameHeight env c height round =
    let s =
      sign_add_vote-Sends env c
        (new_vote env.now proposal_type height round (proposal_data env c) c.last_committed_data) in
    record {
      height = s.height;
      locked_round = s.locked_round;
      locked_proposal = s.locked_proposal;
      votes = s.votes;
      commit_round = s.commit_round;
      last_commit = s.last_commit;
      last_committed_data = s.last_committed_data;
      committed = s.committed;
    }

pub scheduled-SameHeight :
    (c : Core) (duration height round : ℤ) (step : RoundStepType)
    → SameHeight c (schedule_timeout c duration height round step)
unfolding schedule_timeout
scheduled-SameHeight c duration height round step = record {
  height = refl;
  locked_round = refl;
  locked_proposal = refl;
  votes = refl;
  commit_round = refl;
  last_commit = refl;
  last_committed_data = refl;
  committed = refl;
}

-- `enterPropose` of a round that is ahead moves into it, and changes neither the votes nor the lock.
pub enter_propose-SameHeight :
    (env : Env) (c : Core) (height round : ℤ)
    → is_behind c height round propose_step ≡ false
    → SameHeight c (enter_propose env c height round)
      × IsInRound (enter_propose env c height round) round
unfolding enter_propose
enter_propose-SameHeight env c height round ahead =
    let c' = schedule_timeout c (propose env.cfg round) height round propose_step in
    let s = scheduled-SameHeight c (propose env.cfg round) height round propose_step in
    let plain : SameHeight c (end_propose env c' height round)
        × IsInRound (end_propose env c' height round) round =
      (
        SameHeight-trans s (end_propose-SameHeight env c' height round).0,
        (end_propose-SameHeight env c' height round).1,
      ) in
    let own = end_propose-SameHeight env (do_propose env c' height round) height round in
    let self = get_self_pub_key (validators_of env c) in
    rw ahead (elim (Bool-cases (not ((committee_of env c).is_validator self))) [
      | inl e ↦ rw e plain
      | inr e ↦
          rw e (elim (Bool-cases ((committee_of env c).get_current_proposer c.round == self)) [
            | inl f ↦ rw f (
              SameHeight-trans s
                  (SameHeight-trans (do_propose-SameHeight env c' height round) own.0),
              own.1,
            )
            | inr f ↦ rw f plain
          ])
    ])
