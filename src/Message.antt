-- ===== src/Message.antt =====
-- message/message.go: the consensus messages. A `ProposedData` ([32]byte) is the number that its
-- bytes spell, so `NilData` is 0. A `PubKey` (string) is a number too: the code only compares keys
-- and tests them for the empty string, which is 0. Times are nanoseconds, 0 the zero time.
-- A `[]*Vote` is a list of options, since a pointer in it may be nil.
pub mod Digest
pub mod Validate
pub mod Commits
use gobft.Base.{
  ℕ, ◌+◌, ◌≡◌, ℤ, pos, Bool, true, false, ◌&&◌, ◌||◌, Option, none, some, List, [], ◌∷◌, ◌==◌,
}

abbrev pub PubKey : Type 0
PubKey = ℕ

abbrev pub ProposedData : Type 0
ProposedData = ℕ

abbrev pub nil_data : ProposedData
nil_data = 0

-- A byte.
abbrev pub VoteType : Type 0
VoteType = ℕ

abbrev pub prevote_type : VoteType
prevote_type = 0x01

abbrev pub precommit_type : VoteType
precommit_type = 0x02

abbrev pub proposal_type : VoteType
proposal_type = 0x20

unfoldable pub is_vote_type_valid : VoteType → Bool
is_vote_type_valid t = t == prevote_type || t == precommit_type || t == proposal_type

pub record Vote : Type 0 where
  pub type_ : VoteType
  pub height : ℤ
  pub round : ℤ
  pub timestamp : ℕ
  pub proposed : ProposedData
  pub prev : ProposedData
  pub address : PubKey
  pub signature : List ℕ

-- `now` is what `common.Now()` returns.
unfoldable pub new_vote : ℕ → VoteType → ℤ → ℤ → ProposedData → ProposedData → Vote
new_vote now t height round proposed prev = record {
  type_ = t;
  height = height;
  round = round;
  timestamp = now;
  proposed = proposed;
  prev = prev;
  address = 0;
  signature = [];
}

pub record Commit : Type 0 where
  pub proposed_data : ProposedData
  pub prev : ProposedData
  pub precommits : List (Option Vote)
  pub commit_time : ℕ
  pub address : PubKey
  pub signature : List ℕ

pub record FetchVotesReq : Type 0 where
  pub type_ : VoteType
  pub height : ℤ
  pub round : ℤ
  pub invoker : PubKey
  pub voters : List PubKey
  pub time : ℕ
  pub signature : List ℕ

pub record FetchVotesRsp : Type 0 where
  pub type_ : VoteType
  pub height : ℤ
  pub round : ℤ
  pub responser : PubKey
  pub missing_votes : List (Option Vote)
  pub time : ℕ
  pub signature : List ℕ

-- `ConsensusMessage`, by its implementations.
pub data ConsensusMessage : Type 0 where
  vote_msg : Vote → ConsensusMessage
  commit_msg : Commit → ConsensusMessage
  fetch_req_msg : FetchVotesReq → ConsensusMessage
  fetch_rsp_msg : FetchVotesRsp → ConsensusMessage

-- The vote that `FirstPrecommit` makes up where every precommit is nil.
abbrev empty_precommit : Vote
empty_precommit = record {
  type_ = precommit_type;
  height = pos 0;
  round = pos 0;
  timestamp = 0;
  proposed = nil_data;
  prev = nil_data;
  address = 0;
  signature = [];
}

first_non_nil : List (Option Vote) → Vote
first_non_nil [] = empty_precommit
first_non_nil (none ∷ vs) = first_non_nil vs
first_non_nil (some v ∷ vs) = v

-- `nil` for a commit with no precommits.
unfoldable pub first_precommit : Commit → Option Vote
unfolding first_non_nil
first_precommit commit = elim commit.precommits [
  | [] ↦ none
  | v ∷ vs ↦ some (first_non_nil (v ∷ vs))
]

-- `Commit.Height`
unfoldable pub commit_height : Commit → ℤ
unfolding first_precommit
commit_height commit = elim (first_precommit commit) [ none ↦ pos 0 | some v ↦ v.height ]

-- `Commit.Round`
unfoldable pub commit_round : Commit → ℤ
unfolding first_precommit
commit_round commit = elim (first_precommit commit) [ none ↦ pos 0 | some v ↦ v.round ]
