-- ===== src/HeightVoteSet.antt =====
-- height_vote_set.go: the vote sets of the rounds of one height. The vote sets that the map points to
-- change in place; here the changed set is written back.
pub mod Rounds
pub mod Tracking
pub mod Adding
pub mod Kept
pub mod Polkas
pub mod Counted
use gobft.Base.{
  ℕ, zero, suc, ℤ, pos, negsuc, pos_part, ◌+ℤ◌, ◌-ℤ◌, int64, ltb_ℤ, ◌==ℤ◌, Bool, false, ◌&&◌, not,
  Option, none, some, List, [], ◌==◌, if◌then◌else◌, lookup, insert, int_key, is_some, Outcome,
  done, panic, sane, ◌>>=◌, ◌>>◌,
}
use gobft.Errors.{VoteError, invalid_vote_type}
use gobft.Message.{
  ProposedData, VoteType, nil_data, prevote_type, precommit_type, is_vote_type_valid, Vote,
}
use gobft.Committee.{Validators}
use gobft.VoteSet.{VoteSet, new_vote_set, add_vote, two_thirds_majority}

pub record RoundVoteSet : Type 0 where
  pub prevotes : VoteSet
  pub precommits : VoteSet

pub record HeightVoteSet : Type 0 where
  pub height : ℤ
  pub base : ProposedData
  pub round : ℤ
  pub round_vote_sets : List (ℤ × RoundVoteSet)

-- Panics if the round is there, or at height 0.
unfoldable pub add_round : HeightVoteSet → ℤ → Outcome HeightVoteSet
add_round hvs round = do
  sane (not (is_some (lookup round hvs.round_vote_sets)))
  prevotes ← new_vote_set hvs.height round prevote_type hvs.base
  precommits ← new_vote_set hvs.height round precommit_type hvs.base
  done (record hvs {
    round_vote_sets =
        insert round (record { prevotes = prevotes; precommits = precommits }) hvs.round_vote_sets;
  })

-- `NewHeightVoteSet`, by `Reset`.
unfoldable pub new_height_vote_set : ℤ → ProposedData → Outcome HeightVoteSet
unfolding add_round
new_height_vote_set height base =
    add_round (record { height = height; base = base; round = pos 0; round_vote_sets = [] }) (pos 0)

-- The loop of `SetRound`, for `n` rounds from `r`.
unfoldable pub add_rounds : ℕ → ℤ → HeightVoteSet → Outcome HeightVoteSet
add_rounds zero r hvs = done hvs
add_rounds (suc n) r hvs = elim (lookup r hvs.round_vote_sets) [
  | some rvs ↦ add_rounds n (int64 (r +ℤ pos 1)) hvs
  | none ↦ add_round hvs r >>= add_rounds n (int64 (r +ℤ pos 1))
]

unfoldable pub set_round : HeightVoteSet → ℤ → Outcome HeightVoteSet
set_round hvs round = do
  sane (not (not (hvs.round ==ℤ pos 0) && ltb_ℤ round (int64 (hvs.round +ℤ pos 1))))
  hvs' ← add_rounds (pos_part (round -ℤ hvs.round)) (int64 (hvs.round +ℤ pos 1)) hvs
  done (record hvs' { round = round })

-- A `nil` vote set where the round is not there; a panic on a type that is no vote's.
unfoldable pub get_vote_set : HeightVoteSet → ℤ → VoteType → Outcome (Option VoteSet)
get_vote_set hvs round type_ = elim (lookup round hvs.round_vote_sets) [
  | none ↦ done none
  | some rvs ↦
      if type_ == prevote_type
      then done (some rvs.prevotes)
      else if type_ == precommit_type
      then done (some rvs.precommits)
      else panic
]

unfoldable pub prevotes_of : HeightVoteSet → ℤ → Option VoteSet
prevotes_of hvs round = elim (lookup round hvs.round_vote_sets) [
  | none ↦ none
  | some rvs ↦ some rvs.prevotes
]

unfoldable pub precommits_of : HeightVoteSet → ℤ → Option VoteSet
precommits_of hvs round = elim (lookup round hvs.round_vote_sets) [
  | none ↦ none
  | some rvs ↦ some rvs.precommits
]

-- The write through the pointer that `getVoteSet` returned.
unfoldable pub put_vote_set : HeightVoteSet → ℤ → VoteType → VoteSet → HeightVoteSet
put_vote_set hvs round type_ vs = elim (lookup round hvs.round_vote_sets) [
  | none ↦ hvs
  | some rvs ↦ record hvs {
    round_vote_sets =
        insert round
          (if type_ == prevote_type
            then record rvs { prevotes = vs }
            else record rvs { precommits = vs })
          hvs.round_vote_sets;
  }
]

-- The vote set of a vote, made where the round is not there.
unfoldable pub find_or_add : HeightVoteSet → ℤ → VoteType → Outcome (HeightVoteSet × Option VoteSet)
unfolding get_vote_set add_round
find_or_add hvs round type_ = do
  found ← get_vote_set hvs round type_
  elim found [
    | some vs ↦ done (hvs, some vs)
    | none ↦ do hvs' ← add_round hvs round; made ← get_vote_set hvs' round type_; done (hvs', made)
  ]

-- The rest of `AddVote`, for a valid type.
unfoldable pub add_to_round :
    Validators → HeightVoteSet → Vote → Outcome (HeightVoteSet × Bool × Option VoteError)
unfolding find_or_add
add_to_round vals hvs vote = do
  (hvs', found) ← find_or_add hvs vote.round vote.type_
  (vs, added, err) ← add_vote vals found (some vote)
  done (put_vote_set hvs' vote.round vote.type_ vs, added, err)

-- `HeightVoteSet.AddVote`
unfoldable pub hvs_add_vote :
    Validators → HeightVoteSet → Vote → Outcome (HeightVoteSet × Bool × Option VoteError)
unfolding is_vote_type_valid add_to_round
hvs_add_vote vals hvs vote =
    if not (is_vote_type_valid vote.type_)
    then done (hvs, false, some invalid_vote_type)
    else add_to_round vals hvs vote

-- The loop of `POLInfo` over the `n` rounds below `n`, from the last.
unfoldable pub pol_below : HeightVoteSet → ℕ → ℤ × ProposedData
pol_below hvs zero = (negsuc 0, nil_data)
pol_below hvs (suc r) =
    let rest = pol_below hvs r in
    let (data23, found) = two_thirds_majority (prevotes_of hvs (pos r)) in
    if found then (pos r, data23) else rest

-- How many rounds from 0 up to this one.
abbrev pub rounds_upto : ℤ → ℕ
rounds_upto (pos n) = suc n
rounds_upto (negsuc n) = 0

unfoldable pub pol_info : HeightVoteSet → ℤ × ProposedData
unfolding pol_below prevotes_of
pol_info hvs = pol_below hvs (rounds_upto hvs.round)
