-- ===== src/Scenarios/Ballots.antt =====
-- Runs of the vote sets (vote_set.go) and of the commits that they make (message/message.go).
use mathlib.Core.List.{Perm}
use mathlib.Core.List.Perm.{swap as perm_swap}
use gobft.Base.{
  ◌≡◌, refl, sym, ◌∙◌, ◌≢◌, inl, inr, ◌⊎◌, ◌*◌, ◌≤◌, pos, true, false, ◌&&◌, ◌||◌, none, some, List,
  [], ◌∷◌, ◌==◌, if◌then◌else◌, bytes_equal, arith, done, lookup, insert, int64, ◌+ℤ◌, quot_ℤ,
  Bool-cases, ==_iff,
}
use gobft.Errors.{VoteError, duplicate_vote, non_deterministic_signature}
use gobft.Message.{PubKey, ProposedData, nil_data, prevote_type, Vote}
use gobft.Message.Digest.{vote_digest, vote_preimage}
use gobft.Committee.{Validators}
use gobft.Base.{negsuc}
use gobft.Committee.{get_voting_power, sign_vote, verify_signature}
use gobft.Weights.{power_of, weight, weight-cong, weight-none}
use gobft.VoteSet.{
  VoteSet, new_vote_set, add_known_vote, two_thirds_majority, add_verified_vote, refusal, get_vote,
  pd_add_vote, quorum,
}
use gobft.VoteSet.Outcomes.{next, IsAcceptable, add_known_vote_result, add_known_vote_again}
use gobft.VoteSet.Invariant.{voted, tally, total, IsValid}
use gobft.VoteSet.Majority.{new_vote_set-IsValid, add_known_vote-IsValid, majority_final}
use gobft.VoteSet.Evidence.{IsTidy}
use gobft.VoteSet.History.{
  after_votes, any_counts, voted-after_votes, tally_order, after_votes-IsValid, after_votes-IsTidy,
}
use gobft.Base.{◌<◌, ◌≤◌}
use gobft.Committee.{get_total_voting_power}
use gobft.VoteSet.{has_two_thirds_any, two_thirds}
use gobft.VoteSet.Sum.{count, majority_implies_any}
use gobft.VoteSet.Agreement.{nodes_agree}
use gobft.VoteSet.Reports.{power_for, new_vote_set-Reports}
use gobft.HeightVoteSet.Rounds.{fresh_set, fresh_set-IsSetFor}
use gobft.Scenarios.{members, node, key, four-IsCommittee, prevote_for}

abbrev pub empty_set : VoteSet
empty_set = fresh_set (pos 1) (pos 0) prevote_type 9

abbrev pub three_for_5 : List Vote
three_for_5 = prevote_for 1 5 ∷ prevote_for 2 5 ∷ prevote_for 3 5 ∷ []

abbrev three_in_order : List Vote
three_in_order = prevote_for 2 5 ∷ prevote_for 1 5 ∷ prevote_for 3 5 ∷ []

abbrev pub three_set : VoteSet
three_set = after_votes (node 1) empty_set three_for_5

pub three_set_majority : two_thirds_majority (some three_set) ≡ (5, true)
unfolding two_thirds_majority after_votes add_known_vote refusal sign_vote get_vote lookup
    verify_signature bytes_equal vote_digest vote_preimage add_verified_vote insert pd_add_vote
    get_voting_power quorum int64 ◌+ℤ◌ quot_ℤ
three_set_majority = refl

pub three_set-IsValid : IsValid (node 1) members three_set
three_set-IsValid =
    after_votes-IsValid (node 1) members empty_set three_for_5 four-IsCommittee
      (fresh_set-IsSetFor (node 1) members (pos 1) 9 (pos 0) prevote_type).valid

pub three_set-IsTidy : IsTidy three_set
three_set-IsTidy =
    after_votes-IsTidy (node 1) empty_set three_for_5
      (fresh_set-IsSetFor (node 1) members (pos 1) 9 (pos 0) prevote_type).tidy

abbrev three_at_2 : VoteSet
three_at_2 = after_votes (node 2) empty_set three_in_order

at_2_majority : two_thirds_majority (some three_at_2) ≡ (5, true)
unfolding two_thirds_majority after_votes add_known_vote refusal sign_vote get_vote lookup
    verify_signature bytes_equal vote_digest vote_preimage add_verified_vote insert pd_add_vote
    get_voting_power quorum int64 ◌+ℤ◌ quot_ℤ
at_2_majority = refl

only_5 : (x : ProposedData) (a : PubKey) → x ≢ 5 → voted three_set x a ≡ false
unfolding any_counts get_vote lookup sign_vote
only_5 x a n = voted-after_votes (node 1) empty_set three_for_5 x a ∙ ground arith

only_5_at_2 : (x : ProposedData) (a : PubKey) → x ≢ 5 → voted three_at_2 x a ≡ false
unfolding any_counts get_vote lookup sign_vote
only_5_at_2 x a n = voted-after_votes (node 2) empty_set three_in_order x a ∙ ground arith

one_vote_each :
    (x y : ProposedData)
    → x ≢ y
    → 3 * weight (power_of (node 1)) (λ a. voted three_set x a && voted three_at_2 y a) members
      ≤ total (node 1) members
one_vote_each x y n =
    let none_twice : (a : PubKey) → (voted three_set x a && voted three_at_2 y a) ≡ false = λ a.
      elim (Bool-cases (x == 5)) [
        | inl e ↦ ground (arith, only_5_at_2 y a (λ f. n ((==_iff x 5).0 e ∙ sym f)))
        | inr e ↦ ground (arith, only_5 x a (λ f. cc ((==_iff x 5).1 f)))
      ] in
    omega (
      arith,
      weight-cong (power_of (node 1)) _ (λ a. false) members none_twice,
      weight-none (power_of (node 1)) members,
    )

pub starts_empty : new_vote_set (pos 1) (pos 0) prevote_type 9 ≡ done empty_set
unfolding new_vote_set
starts_empty = refl

nodes_agree_example : ◌≡◌ {A = ProposedData} 5 5
nodes_agree_example =
    nodes_agree (node 1) (key 2) members (pos 1) (pos 0) prevote_type 9 empty_set three_for_5
      three_in_order 5 5 four-IsCommittee starts_empty one_vote_each three_set_majority
      at_2_majority

new_vote_set-Reports_example :
    ((d : ProposedData) × (two_thirds_majority (some three_set) ≡ (d, true))
      × (d ≢ nil_data)
      × (2 * total (node 1) members < 3 * power_for (node 1) members empty_set three_for_5 d))
    ⊎ ((two_thirds_majority (some three_set) ≡ (nil_data, false))
        × ((d : ProposedData)
            → d ≢ nil_data
            → 3 * power_for (node 1) members empty_set three_for_5 d ≤ 2 * total (node 1) members))
new_vote_set-Reports_example =
    new_vote_set-Reports (node 1) members (pos 1) (pos 0) prevote_type 9 empty_set three_for_5
      four-IsCommittee starts_empty

-- The fourth vote, for other data, is recorded and changes nothing.
fourth :
    add_known_vote (node 1) three_set (prevote_for 4 6)
    ≡ done (next (node 1) three_set (prevote_for 4 6), true, none)
unfolding two_thirds_majority after_votes add_known_vote refusal sign_vote get_vote lookup
    verify_signature bytes_equal vote_digest vote_preimage add_verified_vote insert pd_add_vote
    get_voting_power quorum int64 ◌+ℤ◌ quot_ℤ
fourth = refl

majority_final_example :
    two_thirds_majority (some (next (node 1) three_set (prevote_for 4 6))) ≡ (5, true)
majority_final_example =
    majority_final (node 1) three_set (next (node 1) three_set (prevote_for 4 6)) (prevote_for 4 6)
      5 three_set_majority fourth

add_known_vote-IsValid_example :
    IsValid (node 1) members (next (node 1) three_set (prevote_for 4 6))
add_known_vote-IsValid_example =
    add_known_vote-IsValid (node 1) members three_set (next (node 1) three_set (prevote_for 4 6))
      (prevote_for 4 6) four-IsCommittee three_set-IsValid fourth

add_known_vote_result_example :
    (IsAcceptable (node 1) three_set (prevote_for 3 6)
      × (vs' : VoteSet) × (add_known_vote (node 1) three_set (prevote_for 3 6)
          ≡ done (vs', true, none))
      × ((d : ProposedData) (a : PubKey)
          → get_vote vs' d a ≡ (
              if (prevote_for 3 6).proposed == d && (prevote_for 3 6).address == a
              then some (prevote_for 3 6)
              else get_vote three_set d a)))
    ⊎ ((e : VoteError) × (¬ IsAcceptable (node 1) three_set (prevote_for 3 6))
        × (add_known_vote (node 1) three_set (prevote_for 3 6) ≡ done (three_set, false, some e)))
add_known_vote_result_example = add_known_vote_result (node 1) three_set (prevote_for 3 6)

recorded_2 : get_vote three_set 5 2 ≡ some (prevote_for 2 5)
unfolding two_thirds_majority after_votes add_known_vote refusal sign_vote get_vote lookup
    verify_signature bytes_equal vote_digest vote_preimage add_verified_vote insert pd_add_vote
    get_voting_power quorum int64 ◌+ℤ◌ quot_ℤ
recorded_2 = refl

same_base : (prevote_for 2 5).prev ≡ three_set.base
unfolding two_thirds_majority after_votes add_known_vote refusal sign_vote get_vote lookup
    verify_signature bytes_equal vote_digest vote_preimage add_verified_vote insert pd_add_vote
    get_voting_power quorum int64 ◌+ℤ◌ quot_ℤ
same_base = refl

same_height : (prevote_for 2 5).height ≡ three_set.height
unfolding two_thirds_majority after_votes add_known_vote refusal sign_vote get_vote lookup
    verify_signature bytes_equal vote_digest vote_preimage add_verified_vote insert pd_add_vote
    get_voting_power quorum int64 ◌+ℤ◌ quot_ℤ
same_height = refl

same_round : (prevote_for 2 5).round ≡ three_set.round
unfolding two_thirds_majority after_votes add_known_vote refusal sign_vote get_vote lookup
    verify_signature bytes_equal vote_digest vote_preimage add_verified_vote insert pd_add_vote
    get_voting_power quorum int64 ◌+ℤ◌ quot_ℤ
same_round = refl

same_type : (prevote_for 2 5).type_ ≡ three_set.type_
unfolding two_thirds_majority after_votes add_known_vote refusal sign_vote get_vote lookup
    verify_signature bytes_equal vote_digest vote_preimage add_verified_vote insert pd_add_vote
    get_voting_power quorum int64 ◌+ℤ◌ quot_ℤ
same_type = refl

recorded_again :
    get_vote three_set (prevote_for 2 5).proposed (prevote_for 2 5).address ≡ some (prevote_for 2 5)
unfolding two_thirds_majority after_votes add_known_vote refusal sign_vote get_vote lookup
    verify_signature bytes_equal vote_digest vote_preimage add_verified_vote insert pd_add_vote
    get_voting_power quorum int64 ◌+ℤ◌ quot_ℤ
recorded_again = refl

add_known_vote_again_example :
    add_known_vote (node 1) three_set (prevote_for 2 5)
    ≡ done (
      three_set,
      false,
      some (
          if bytes_equal (prevote_for 2 5).signature (prevote_for 2 5).signature
          then duplicate_vote
          else non_deterministic_signature),
    )
add_known_vote_again_example =
    add_known_vote_again (node 1) three_set (prevote_for 2 5) (prevote_for 2 5) same_base
      same_height same_round same_type recorded_again

new_vote_set-IsValid_example :
    (vs : VoteSet) × (new_vote_set (pos 1) (pos 0) prevote_type 9 ≡ done vs)
    × IsValid (node 1) members vs
new_vote_set-IsValid_example =
    new_vote_set-IsValid (node 1) members (pos 1) (pos 0) prevote_type 9 (λ e. ground arith)

voted-after_votes_example :
    voted (after_votes (node 1) empty_set three_for_5) 5 3
    ≡ (voted empty_set 5 3 || any_counts (node 1) empty_set 5 3 three_for_5)
voted-after_votes_example = voted-after_votes (node 1) empty_set three_for_5 5 3

swapped : Perm three_for_5 three_in_order
swapped = perm_swap (prevote_for 2 5) (prevote_for 1 5) (prevote_for 3 5 ∷ [])

tally_order_example :
    tally (node 1) members (after_votes (node 1) empty_set three_for_5) 5
    ≡ tally (node 1) members (after_votes (node 1) empty_set three_in_order) 5
tally_order_example = tally_order (node 1) members empty_set three_for_5 three_in_order 5 swapped

after_votes-IsValid_example :
    IsValid (node 1) members (after_votes (node 1) empty_set three_in_order)
after_votes-IsValid_example =
    after_votes-IsValid (node 1) members empty_set three_in_order four-IsCommittee
      (fresh_set-IsSetFor (node 1) members (pos 1) 9 (pos 0) prevote_type).valid

-- A committee of which 64 bits do not hold twice the power.
abbrev mighty : Validators
mighty = record (node 1) {
  committee = record (node 1).committee { total_voting_power = pos 4611686018427387904 };
}

-- Two thirds of 2 ^ 63, wrapped.
mighty-quorum : quorum mighty ≡ negsuc 3074457345618258600
unfolding quorum two_thirds get_total_voting_power int64 ◌+ℤ◌ quot_ℤ
mighty-quorum = refl

three_set_count : count three_set.votes_by_proposed_data < 9223372036854775808
unfolding after_votes add_known_vote refusal sign_vote get_vote lookup verify_signature bytes_equal
    vote_digest vote_preimage add_verified_vote insert pd_add_vote get_voting_power quorum
    two_thirds int64 ◌+ℤ◌ quot_ℤ
three_set_count = ground arith

majority_implies_any_example : has_two_thirds_any (node 1) (some three_set) ≡ true
majority_implies_any_example =
    majority_implies_any (node 1) members (pos 1) (pos 0) prevote_type 9 empty_set three_for_5 5
      four-IsCommittee starts_empty three_set_count three_set_majority
