-- ===== src/Core/Frames.antt =====
-- What the sending of a vote leaves alone (bftcore.go).
use gobft.Base.{◌≡◌, ◌∷◌, if◌then◌else◌, arith}
use gobft.Message.{Vote, vote_msg}
use gobft.Committee.{sign_vote}
use gobft.Core.State.{
  Core, Env, broadcast, validators_of, is_validator, send_internal_message, sign_add_vote,
}

-- Two cores that differ only in what is queued and sent.
pub record Sends (c c' : Core) : Type 0 where
  pub height : c'.height ≡ c.height
  pub round : c'.round ≡ c.round
  pub step : c'.step ≡ c.step
  pub proposal : c'.proposal ≡ c.proposal
  pub locked_round : c'.locked_round ≡ c.locked_round
  pub locked_proposal : c'.locked_proposal ≡ c.locked_proposal
  pub votes : c'.votes ≡ c.votes
  pub commit_round : c'.commit_round ≡ c.commit_round
  pub last_commit : c'.last_commit ≡ c.last_commit
  pub last_committed_data : c'.last_committed_data ≡ c.last_committed_data
  pub committed : c'.committed ≡ c.committed

pub sign_add_vote-Sends :
    (env : Env) (c : Core) (vote : Vote) → Sends c (sign_add_vote env c vote).0
unfolding sign_add_vote is_validator send_internal_message
sign_add_vote-Sends env c vote = ground arith

abbrev pub signed_vote : Env → Core → Vote → Vote
signed_vote env c vote = sign_vote (validators_of env c) vote

pub sign_add_vote-effects :
    (env : Env) (c : Core) (vote : Vote)
    → (sign_add_vote env c vote).0.effects ≡ (
        if is_validator env c
        then broadcast (vote_msg (signed_vote env c vote)) ∷ c.effects
        else c.effects)
unfolding sign_add_vote send_internal_message
sign_add_vote-effects env c vote = ground arith
