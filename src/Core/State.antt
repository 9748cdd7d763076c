-- ===== src/Core/State.antt =====
-- state.go, and the fields of `Core` (bftcore.go) that its methods read or write, in one record. What
-- a method sends out is recorded in `effects`, the newest first, and the commits handed to the
-- application in `committed`. The logger, the channels' plumbing, the wait group and the message
-- statistics are left out; the lock makes each handler one atomic step.
use gobft.Base.{
  ℕ, ℤ, ◌==ℤ◌, ltb_ℤ, Bool, false, ◌&&◌, ◌||◌, not, Option, none, List, [], ◌∷◌, ◌++◌, length, ltb,
  leb, if◌then◌else◌,
}
use gobft.Message.{ProposedData, Vote, Commit, ConsensusMessage, vote_msg}
use gobft.Message.Digest.{Hashing}
use gobft.Committee.{Committee, PrivValidator, Validators, get_self_pub_key, sign_vote}
use gobft.Config.{Config}
use gobft.VoteSet.{VoteSet}
use gobft.HeightVoteSet.{HeightVoteSet}

abbrev pub RoundStepType : Type 0
RoundStepType = ℕ

abbrev pub new_height : RoundStepType
new_height = 0x01

abbrev pub new_round : RoundStepType
new_round = 0x02

abbrev pub propose_step : RoundStepType
propose_step = 0x03

abbrev pub prevote_step : RoundStepType
prevote_step = 0x04

abbrev pub prevote_fetch : RoundStepType
prevote_fetch = 0x05

abbrev pub prevote_wait : RoundStepType
prevote_wait = 0x06

abbrev pub precommit_step : RoundStepType
precommit_step = 0x07

abbrev pub precommit_fetch : RoundStepType
precommit_fetch = 0x08

abbrev pub precommit_wait : RoundStepType
precommit_wait = 0x09

abbrev pub commit_step : RoundStepType
commit_step = 0x0a

-- A `custom.IPeer`, by a number; `none` is nil.
pub record MsgInfo : Type 0 where
  pub msg : ConsensusMessage
  pub peer : Option ℕ

pub record TimeoutInfo : Type 0 where
  pub duration : ℤ
  pub height : ℤ
  pub round : ℤ
  pub step : RoundStepType

pub data Effect : Type 0 where
  broadcast : ConsensusMessage → Effect
  send : ConsensusMessage → Option ℕ → Effect
  schedule : TimeoutInfo → Effect

-- RoundState and Core.
pub record Core : Type 0 where
  pub height : ℤ
  pub round : ℤ
  pub step : RoundStepType
  pub start_time : ℤ
  pub commit_time : ℕ
  pub proposal : Option Vote
  pub locked_round : ℤ
  pub locked_proposal : Option Vote
  pub votes : Option HeightVoteSet
  pub commit_round : ℤ
  pub last_commit : Option VoteSet
  pub last_committed_data : ProposedData
  pub has_recv_commit_records : Bool
  pub in_fetch : Bool
  pub byzantine_prevote : Option ProposedData
  pub msg_queue : List MsgInfo
  pub started : Bool
  pub effects : List Effect
  pub committed : List Commit

-- What a handler reads besides the state: the configuration, the keys, the clock (read once for each
-- handler), and the committee, which answers by the commits that it has been handed.
pub record Env : Type 0 where
  pub cfg : Config
  pub priv_val : PrivValidator
  pub hashing : Hashing
  pub now : ℕ
  pub committee : List Commit → Committee

abbrev pub committee_of : Env → Core → Committee
committee_of env c = env.committee c.committed

-- `c.validators`
abbrev pub validators_of : Env → Core → Validators
validators_of env c = record {
  committee = committee_of env c;
  priv_val = env.priv_val;
  hashing = env.hashing;
}

abbrev pub emit : Core → Effect → Core
emit c e = record c { effects = e ∷ c.effects }

unfoldable pub update_round_step : Core → ℤ → RoundStepType → Core
update_round_step c round step = record c { round = round; step = step; in_fetch = false }

unfoldable pub schedule_timeout : Core → ℤ → ℤ → ℤ → RoundStepType → Core
schedule_timeout c duration height round step =
    emit c (schedule (record { duration = duration; height = height; round = round; step = step }))

abbrev pub msg_queue_size : ℕ
msg_queue_size = 1000

-- A message that finds the queue full is dropped.
unfoldable pub send_internal_message : Core → MsgInfo → Core
send_internal_message c mi =
    if ltb (length c.msg_queue) msg_queue_size
    then record c { msg_queue = c.msg_queue ++ mi ∷ [] }
    else c

unfoldable pub is_validator : Env → Core → Bool
unfolding get_self_pub_key
is_validator env c = (committee_of env c).is_validator (get_self_pub_key (validators_of env c))

-- The vote is signed in place, so the signed vote is returned.
unfoldable pub sign_add_vote : Env → Core → Vote → Core × Vote
unfolding is_validator send_internal_message
sign_add_vote env c vote =
    if is_validator env c
    then (let signed = sign_vote (validators_of env c) vote in
        (
          emit (send_internal_message c (record { msg = vote_msg signed; peer = none }))
              (broadcast (vote_msg signed)),
          signed,
        ))
    else (c, vote)

-- `c.Height != height || round < c.Round || (c.Round == round && step <= c.Step)`: the guard with
-- which the transitions refuse what is not ahead.
abbrev pub is_behind : Core → ℤ → ℤ → RoundStepType → Bool
is_behind c height round step =
    not (c.height ==ℤ height) || ltb_ℤ round c.round || (c.round ==ℤ round && leb step c.step)
