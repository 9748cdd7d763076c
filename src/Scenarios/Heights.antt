-- ===== src/Scenarios/Heights.antt =====
-- Runs of the vote sets of a height (height_vote_set.go).
use gobft.Base.{
  ℕ, ◌≡◌, refl, inl, ◌≤◌, ℤ, pos, Bool, true, Option, none, some, [], arith, done, panic, lookup,
  insert, int_key, int64, ◌+ℤ◌, quot_ℤ, bytes_equal, suc, zero,
}
use gobft.Errors.{VoteError}
use gobft.Message.{prevote_type, precommit_type, proposal_type, Vote}
use gobft.Message.Digest.{vote_digest, vote_preimage}
use gobft.Committee.{sign_vote, verify_signature, get_voting_power}
use gobft.VoteSet.{add_known_vote, add_verified_vote, refusal, get_vote, pd_add_vote, quorum}
use gobft.VoteSet.Outcomes.{next}
use gobft.VoteSet.History.{after_votes}
use gobft.HeightVoteSet.{HeightVoteSet, RoundVoteSet, set_round, hvs_add_vote, pol_info}
use gobft.HeightVoteSet.Rounds.{IsSetFor, IsHeightValid, write_round, write_round-IsHeightValid}
use gobft.HeightVoteSet.Tracking.{Tracks, LastPolka, set_round-Tracks, pol_info_lem}
use gobft.HeightVoteSet.Adding.{
  IsVoteType, round_at, pick, replace, hvs_add_vote_lem, hvs_add_vote-proposal,
}
use gobft.HeightVoteSet.Kept.{hvs_add_vote-IsHeightValid}
use gobft.Scenarios.{members, node, four-IsCommittee, prevote_for, ballot}
use gobft.Scenarios.Ballots.{three_set, three_set-IsValid, three_set-IsTidy}
use gobft.Scenarios.Evidence.{three_precommits, three_precommits-IsValid, precommits-IsTidy}

abbrev pub voted_round : RoundVoteSet
voted_round = record { prevotes = three_set; precommits = three_precommits }

abbrev pub no_rounds : HeightVoteSet
no_rounds = record { height = pos 1; base = 9; round = pos 0; round_vote_sets = [] }

-- Round 0 of height 1, in which three of the four prevoted and precommitted 5.
abbrev pub height_1 : HeightVoteSet
height_1 = write_round no_rounds (pos 0) voted_round

prevotes_set : IsSetFor (node 1) members (pos 1) 9 (pos 0) prevote_type three_set
unfolding after_votes add_known_vote refusal sign_vote get_vote lookup verify_signature bytes_equal
    vote_digest vote_preimage add_verified_vote insert pd_add_vote get_voting_power quorum int64
    ◌+ℤ◌ quot_ℤ
prevotes_set = record {
  valid = three_set-IsValid;
  tidy = three_set-IsTidy;
  same_height = refl;
  same_round = refl;
  same_type = refl;
  same_base = refl;
}

pub precommits_set : IsSetFor (node 1) members (pos 1) 9 (pos 0) precommit_type three_precommits
unfolding after_votes add_known_vote refusal sign_vote get_vote lookup verify_signature bytes_equal
    vote_digest vote_preimage add_verified_vote insert pd_add_vote get_voting_power quorum int64
    ◌+ℤ◌ quot_ℤ
precommits_set = record {
  valid = three_precommits-IsValid;
  tidy = precommits-IsTidy;
  same_height = refl;
  same_round = refl;
  same_type = refl;
  same_base = refl;
}

pub at_0 : lookup (pos 0) height_1.round_vote_sets ≡ some voted_round
unfolding lookup insert
at_0 = refl

no_rounds-IsHeightValid : IsHeightValid (node 1) members no_rounds
unfolding lookup
no_rounds-IsHeightValid = record { has_height = λ e. ground arith; rounds = λ round rvs h. cc }

pub height_1-IsHeightValid : IsHeightValid (node 1) members height_1
height_1-IsHeightValid =
    write_round-IsHeightValid (node 1) members no_rounds (pos 0) voted_round no_rounds-IsHeightValid
      (record { prevotes = prevotes_set; precommits = precommits_set })

height_1-present :
    (k : ℕ) → k ≤ 0 → (rvs : RoundVoteSet) × (lookup (pos k) height_1.round_vote_sets ≡ some rvs)
height_1-present zero le = (voted_round, at_0)
height_1-present (suc k) le = absurd (omega arith)

pub height_1-Tracks : Tracks height_1 0
height_1-Tracks = record { at_round = refl; present = height_1-present }

pub fourth_type : IsVoteType (prevote_for 4 6).type_
unfolding sign_vote
fourth_type = inl refl

set_round-Tracks_example :
    (hvs' : HeightVoteSet) × (set_round height_1 (pos 3) ≡ done hvs')
    × IsHeightValid (node 1) members hvs'
    × Tracks hvs' 3
    × ((k : ℤ) (rvs : RoundVoteSet)
        → lookup k height_1.round_vote_sets ≡ some rvs
        → lookup k hvs'.round_vote_sets ≡ some rvs)
    × (hvs'.height ≡ height_1.height)
    × (hvs'.base ≡ height_1.base)
set_round-Tracks_example =
    set_round-Tracks (node 1) members height_1 0 3 (inl refl) (ground arith) height_1-IsHeightValid
      height_1-Tracks

pol_info_lem_example : LastPolka height_1 1 (pol_info height_1)
pol_info_lem_example = pol_info_lem height_1 0 refl

hvs_add_vote-IsHeightValid_example :
    (hvs' : HeightVoteSet) × (added : Bool) × (e : Option VoteError) × (hvs_add_vote
        (node 1)
        height_1
        (prevote_for 4 6)
      ≡ done (hvs', added, e))
    × IsHeightValid (node 1) members hvs'
    × (hvs'.height ≡ height_1.height)
    × (hvs'.base ≡ height_1.base)
    × (hvs'.round ≡ height_1.round)
hvs_add_vote-IsHeightValid_example =
    hvs_add_vote-IsHeightValid (node 1) members height_1 (prevote_for 4 6) four-IsCommittee
      fourth_type height_1-IsHeightValid

fourth_added :
    add_known_vote
      (node 1)
      (pick (prevote_for 4 6).type_ (round_at height_1 (prevote_for 4 6).round))
      (prevote_for 4 6)
    ≡ done (next (node 1) three_set (prevote_for 4 6), true, none)
unfolding after_votes add_known_vote refusal sign_vote get_vote lookup verify_signature bytes_equal
    vote_digest vote_preimage add_verified_vote insert pd_add_vote get_voting_power quorum int64
    ◌+ℤ◌ quot_ℤ
fourth_added = refl

hvs_add_vote_lem_example :
    hvs_add_vote (node 1) height_1 (prevote_for 4 6)
    ≡ done (
      write_round height_1 (prevote_for 4 6).round (
          replace
            (prevote_for 4 6).type_
            (round_at height_1 (prevote_for 4 6).round)
            (next (node 1) three_set (prevote_for 4 6))),
      true,
      none,
    )
hvs_add_vote_lem_example =
    hvs_add_vote_lem (node 1) height_1 (prevote_for 4 6) (next (node 1) three_set (prevote_for 4 6))
      true none (λ e. ground arith) fourth_type fourth_added

abbrev proposal_of_1 : Vote
proposal_of_1 = ballot 1 proposal_type (pos 1) (pos 0) 5

proposal_type_is : proposal_of_1.type_ ≡ proposal_type
unfolding sign_vote
proposal_type_is = refl

proposal_panics : hvs_add_vote (node 1) height_1 proposal_of_1 ≡ panic
proposal_panics =
    hvs_add_vote-proposal (node 1) height_1 proposal_of_1 (λ e. ground arith) proposal_type_is
