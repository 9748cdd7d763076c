-- ===== src/Scenarios.antt =====
-- A committee of four validators with one vote each, their votes, and the vote sets and cores that the
-- tests in the child modules run on.
pub mod Ballots
pub mod Evidence
pub mod Heights
pub mod Cores
pub mod Handlers
pub mod Ticks
pub mod Sound
pub mod Starts
pub mod Once
pub mod Sync
pub mod Medians
use gobft.Base.{
  ℕ, ◌≡◌, refl, ap, ℤ, pos, negsuc, Bool, true, false, ◌||◌, Option, none, some, List, [], ◌∷◌,
  ◌==◌, if◌then◌else◌, bytes_equal, arith,
}
use gobft.Message.{PubKey, ProposedData, VoteType, prevote_type, precommit_type, Vote}
use gobft.Message.Digest.{Hashing, vote_digest}
use gobft.Committee.{
  AppState, Committee, PubValidator, PrivValidator, Validators, get_voting_power,
  get_total_voting_power, sign_vote,
}
use gobft.Weights.{IsCommittee, elem, weight}
use gobft.VoteSet.{VoteSet}

abbrev pub members : List PubKey
members = 1 ∷ 2 ∷ 3 ∷ 4 ∷ []

-- A signature is the byte 1 and the digest.
abbrev pub member : PubValidator
member = record {
  verify_sig = λ digest signature. bytes_equal (1 ∷ digest) signature;
  voting_power = pos 1;
}

abbrev pub is_member : PubKey → Bool
is_member a = a == 1 || (a == 2 || (a == 3 || a == 4))

-- The application's state once height 1 is decided, for 5.
abbrev pub decided_1 : AppState
decided_1 = record {
  last_height = pos 1;
  last_proposed_data = 5;
  last_commit_time = 0;
  app_hash = [];
}

abbrev pub four : Committee
four = record {
  get_validator = λ a. if is_member a then some member else none;
  is_validator = is_member;
  total_voting_power = pos 4;
  validator_num = pos 4;
  get_current_proposer = λ round. 1;
  decides_proposal = 5;
  validate_proposal = λ d. true;
  get_app_state = some decided_1;
  get_commit_history = λ height. none;
}

-- The hash keeps the first byte.
abbrev pub first_byte : List ℕ → List ℕ
first_byte [] = []
first_byte (b ∷ bs) = b ∷ []

abbrev pub hashes : Hashing
hashes = record {
  sha256 = first_byte;
  encode_vote = λ v. [];
  marshal_time = λ t. [];
  key_bytes = λ k. k ∷ [];
}

abbrev pub key : PubKey → PrivValidator
key k = record { pub_key = k; sign = λ digest. 1 ∷ digest }

-- The view of the validator with this key.
abbrev pub node : PubKey → Validators
node k = record { committee = four; priv_val = key k; hashing = hashes }

pub four-IsCommittee : IsCommittee (node 1) members
unfolding elem weight get_voting_power get_total_voting_power
four-IsCommittee = record {
  distinct = (
    ((λ e. omega arith), ((λ e. omega arith), ((λ e. omega arith), tt))),
    (((λ e. omega arith), ((λ e. omega arith), tt)), (((λ e. omega arith), tt), (tt, tt))),
  );
  complete = λ a h. ground arith;
  powers = λ a. ground arith;
  total = refl;
  small = omega arith;
}

-- A vote of the member k on the base 9.
abbrev pub ballot : PubKey → VoteType → ℤ → ℤ → ProposedData → Vote
ballot k t height round d = sign_vote (node k) (record {
  type_ = t;
  height = height;
  round = round;
  timestamp = 0;
  proposed = d;
  prev = 9;
  address = 0;
  signature = [];
})

abbrev pub prevote_for : PubKey → ProposedData → Vote
prevote_for k d = ballot k prevote_type (pos 1) (pos 0) d

abbrev pub precommit_for : PubKey → ProposedData → Vote
precommit_for k d = ballot k precommit_type (pos 1) (pos 0) d
