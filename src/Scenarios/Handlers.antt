-- ===== src/Scenarios/Handlers.antt =====
-- Runs of the handlers, the decision and the rounds of the core (bftcore.go), and of its timeouts (config.go).
use gobft.Base.{
  ◌≡◌, refl, ◌⊎◌, inl, ◌<◌, ℤ, pos, negsuc, true, none, some, [], ◌∷◌, arith, done, panic, lookup,
  insert, int_key, int64, ◌+ℤ◌, quot_ℤ, bytes_equal, leb_ℤ,
}
use gobft.Message.{prevote_type, Commit, FetchVotesReq, commit_msg, commit_height}
use gobft.Message.Digest.{vote_digest, vote_preimage}
use gobft.Message.Validate.{validate_commit, validate_fetch_req}
use gobft.Committee.{sign_vote, verify_signature, get_voting_power}
use gobft.Config.{default_config, propose, prevote, precommit, validate_config}
use gobft.Config.Durations.{linear, timeouts-linear}
use gobft.VoteSet.{
  add_known_vote, add_verified_vote, refusal, get_vote, pd_add_vote, quorum, two_thirds_majority,
}
use gobft.VoteSet.History.{after_votes}
use gobft.HeightVoteSet.{prevotes_of, precommits_of, pol_info, pol_below}
use gobft.Core.State.{Core, broadcast, schedule}
use gobft.Core.Enter.{enter_prevote}
use gobft.Core.Precommit.{settle_polka}
use gobft.Core.Decide.{start_commit}
use gobft.Core.Messages.{handle_commit, handle_fetch}
use gobft.HeightVoteSet.{RoundVoteSet, HeightVoteSet}
use gobft.HeightVoteSet.Rounds.{IsHeightValid}
use gobft.Core.Enter.{enter_new_round}
use gobft.Core.State.{new_height, validators_of}
use gobft.Core.Rounds.{IsInRound}
use gobft.Core.NewRound.{TracksRound, enter_new_round-TracksRound}
use gobft.Base.{Option}
use gobft.Errors.{VoteError}
use gobft.Core.Votes.{default_set_proposal}
use gobft.Core.Proposals.{IsFit, default_set_proposal-IsFit}
use gobft.Core.Crashes.{handle_commit_nil, handle_fetch_untracked}
use gobft.Core.NextHeight.{IsAtHeight}
use gobft.Core.Decision.{round0_timeout, start_commit_decides}
use gobft.Scenarios.{members, decided_1, precommit_for}
use gobft.Scenarios.Evidence.{three_precommits}
use gobft.Scenarios.Heights.{height_1, precommits_set, height_1-IsHeightValid, height_1-Tracks}
use gobft.Scenarios.Cores.{env_1, core_1, proposal_5}

abbrev holed_commit : Commit
holed_commit = record {
  proposed_data = 5;
  prev = 9;
  precommits = some (precommit_for 1 5) ∷ none ∷ [];
  commit_time = 0;
  address = 2;
  signature = 1 ∷ [];
}

holed_accepted : validate_commit holed_commit ≡ none
unfolding validate_commit sign_vote lookup
holed_accepted = refl

holed_height : leb_ℤ core_1.height (commit_height holed_commit) ≡ true
unfolding commit_height sign_vote
holed_height = refl

handle_commit_nil_example : handle_commit env_1 core_1 holed_commit ≡ panic
handle_commit_nil_example =
    handle_commit_nil env_1 core_1 holed_commit (some (precommit_for 1 5) ∷ []) [] holed_accepted
      holed_height refl

abbrev negative_req : FetchVotesReq
negative_req = record {
  type_ = prevote_type;
  height = pos 1;
  round = negsuc 0;
  invoker = 2;
  voters = [];
  time = 0;
  signature = 1 ∷ [];
}

negative_accepted : validate_fetch_req negative_req ≡ none
unfolding validate_fetch_req
negative_accepted = refl

no_negative_round : lookup (negsuc 0) height_1.round_vote_sets ≡ none
unfolding lookup insert
no_negative_round = refl

handle_fetch_untracked_example : handle_fetch env_1 core_1 negative_req (some 7) ≡ panic
handle_fetch_untracked_example =
    handle_fetch_untracked env_1 core_1 negative_req (some 7) height_1 negative_accepted refl refl
      refl no_negative_round

precommits_at_0 : precommits_of height_1 (pos 0) ≡ some three_precommits
unfolding precommits_of lookup insert
precommits_at_0 = refl

precommits_decide : two_thirds_majority (some three_precommits) ≡ (5, true)
unfolding settle_polka prevotes_of pol_info pol_below two_thirds_majority after_votes add_known_vote
    refusal sign_vote get_vote lookup verify_signature bytes_equal vote_digest vote_preimage
    add_verified_vote insert pd_add_vote get_voting_power quorum int64 ◌+ℤ◌ quot_ℤ
precommits_decide = refl

start_commit_decides_example :
    (c' : Core) × (commit : Commit) × (start_commit env_1 core_1 (pos 0) ≡ done c')
    × (commit.proposed_data ≡ 5)
    × (validate_commit commit ≡ none)
    × (c'.committed ≡ commit ∷ [])
    × (c'.effects ≡ schedule (round0_timeout env_1 c') ∷ broadcast (commit_msg commit) ∷ [])
    × (c'.last_commit ≡ some three_precommits)
    × IsAtHeight c' 1 decided_1
start_commit_decides_example =
    start_commit_decides env_1 core_1 members height_1 three_precommits (pos 0) 5
      (λ commit. decided_1) (λ commit. 1) refl precommits_at_0 refl precommits_set precommits_decide
      (λ e. ground arith) (λ digest e. cc) (λ commit e. refl)
      (λ commit e. record { last = refl; at_least = refl; fits = ground arith })

default_accepted : validate_config default_config ≡ none
unfolding validate_config default_config
default_accepted = refl

propose_fits :
    linear default_config.timeout_propose default_config.timeout_propose_delta 10
    < 9223372036854775808
unfolding default_config
propose_fits = ground arith

prevote_fits :
    linear default_config.timeout_prevote default_config.timeout_prevote_delta 10
    < 9223372036854775808
unfolding default_config
prevote_fits = ground arith

precommit_fits :
    linear default_config.timeout_precommit default_config.timeout_precommit_delta 10
    < 9223372036854775808
unfolding default_config
precommit_fits = ground arith

timeouts-linear_example :
    (propose default_config (pos 10)
      ≡ pos (linear default_config.timeout_propose default_config.timeout_propose_delta 10))
    × (prevote default_config (pos 10)
        ≡ pos (linear default_config.timeout_prevote default_config.timeout_prevote_delta 10))
    × (precommit default_config (pos 10)
        ≡ pos (linear default_config.timeout_precommit default_config.timeout_precommit_delta 10))
timeouts-linear_example =
    timeouts-linear default_config 10 default_accepted propose_fits prevote_fits precommit_fits

-- The same core at the start of the height.
abbrev waiting : Core
waiting = record core_1 { step = new_height }

waiting-TracksRound : TracksRound waiting height_1 0
waiting-TracksRound = record { has_votes = refl; tracks = height_1-Tracks; one_ahead = inl refl }

enter_new_round-TracksRound_example :
    (c' : Core) × (votes' : HeightVoteSet) × (enter_new_round env_1 waiting (pos 1) (pos 0)
      ≡ done c')
    × TracksRound c' votes' 1
    × IsInRound c' (pos 0)
    × IsHeightValid (validators_of env_1 waiting) members votes'
    × ((k : ℤ) (rvs : RoundVoteSet)
        → lookup k height_1.round_vote_sets ≡ some rvs
        → lookup k votes'.round_vote_sets ≡ some rvs)
    × (c'.height ≡ pos 1)
    × (c'.locked_round ≡ negsuc 0)
    × (c'.locked_proposal ≡ none)
    × (c'.committed ≡ [])
enter_new_round-TracksRound_example =
    enter_new_round-TracksRound env_1 waiting members height_1 (pos 1) 0 0 height_1-IsHeightValid
      waiting-TracksRound refl (ground arith)

abbrev open_core : Core
open_core = record core_1 { proposal = none }

default_set_proposal-IsFit_example :
    (IsFit env_1 open_core proposal_5
      × (default_set_proposal env_1 open_core proposal_5
          ≡ (enter_prevote env_1 core_1 (pos 1) (pos 0), none)))
    ⊎ ((¬ IsFit env_1 open_core proposal_5)
        × ((e : Option VoteError) × (default_set_proposal env_1 open_core proposal_5
              ≡ (open_core, e))))
default_set_proposal-IsFit_example = default_set_proposal-IsFit env_1 open_core proposal_5
