-- ===== src/HeightVoteSet/Kept.antt =====
-- What `HeightVoteSet.AddVote` keeps (height_vote_set.go).
use gobft.Base.{
  ◌≡◌, refl, subst, inl, inr, ℤ, Bool, true, false, Option, none, some, List, lookup, int_key, done,
  Option-cases,
}
use gobft.Errors.{VoteError}
use gobft.Message.{PubKey, ProposedData, VoteType, Vote}
use gobft.Committee.{Validators}
use gobft.Weights.{IsCommittee}
use gobft.VoteSet.{VoteSet, add_known_vote, add_verified_vote}
use gobft.VoteSet.Outcomes.{next, IsAcceptable, add_known_vote_outcome}
use gobft.VoteSet.Preservation.{next-IsValid}
use gobft.VoteSet.Evidence.{next-IsTidy}
use gobft.HeightVoteSet.{HeightVoteSet, RoundVoteSet, hvs_add_vote}
use gobft.HeightVoteSet.Rounds.{
  IsHeightValid, IsRoundOf, IsSetFor, fresh_round-IsRoundOf, write_round, write_round-IsHeightValid,
}
use gobft.HeightVoteSet.Adding.{round_at, pick, replace, IsVoteType, hvs_add_vote_lem}

pub next-IsSetFor :
    (vals : Validators) (members : List PubKey) {height : ℤ} {base : ProposedData} {round : ℤ}
    {t : VoteType} (vs : VoteSet) (vote : Vote)
    → IsCommittee vals members
    → IsAcceptable vals vs vote
    → IsSetFor vals members height base round t vs
    → IsSetFor vals members height base round t (next vals vs vote)
unfolding add_verified_vote
next-IsSetFor vals members vs vote comm ok s = record {
  valid = next-IsValid vals members comm vs vote ok s.valid;
  tidy = next-IsTidy vals vs vote s.tidy;
  same_height = s.same_height;
  same_round = s.same_round;
  same_type = s.same_type;
  same_base = s.same_base;
}

-- What `addVote` returns on a vote set of a height, and that the set stays one.
pub set_outcome :
    (vals : Validators) (members : List PubKey) {height : ℤ} {base : ProposedData} {round : ℤ}
    {t : VoteType} (vs : VoteSet) (vote : Vote)
    → IsCommittee vals members
    → IsSetFor vals members height base round t vs
    → (vs' : VoteSet) × (added : Bool) × (e : Option VoteError) × (add_known_vote vals vs vote
        ≡ done (vs', added, e))
      × IsSetFor vals members height base round t vs'
set_outcome vals members vs vote comm s = elim (add_known_vote_outcome vals vs vote) [
  | inl (ok, taken) ↦
      (next vals vs vote, true, none, taken, next-IsSetFor vals members vs vote comm ok s)
  | inr (x, bad, refused) ↦ (vs, false, some x, refused, s)
]

pub round_at-IsRoundOf :
    (vals : Validators) (members : List PubKey) (hvs : HeightVoteSet) (r : ℤ)
    → IsHeightValid vals members hvs
    → IsRoundOf vals members hvs.height hvs.base r (round_at hvs r)
round_at-IsRoundOf vals members hvs r valid = elim (Option-cases (lookup r hvs.round_vote_sets)) [
  | inl e ↦ rw e (fresh_round-IsRoundOf vals members hvs r)
  | inr (rvs, e) ↦ rw e (valid.rounds r rvs e)
]

pub pick-IsSetFor :
    (vals : Validators) (members : List PubKey) (height : ℤ) (base : ProposedData) (r : ℤ)
    (t : VoteType) (rvs : RoundVoteSet)
    → IsVoteType t
    → IsRoundOf vals members height base r rvs
    → IsSetFor vals members height base r t (pick t rvs)
pick-IsSetFor vals members height base r t rvs (inl p) w = rw p w.prevotes
pick-IsSetFor vals members height base r t rvs (inr p) w = rw p w.precommits

pub replace-IsRoundOf :
    (vals : Validators) (members : List PubKey) (height : ℤ) (base : ProposedData) (r : ℤ)
    (t : VoteType) (rvs : RoundVoteSet) (vs : VoteSet)
    → IsVoteType t
    → IsRoundOf vals members height base r rvs
    → IsSetFor vals members height base r t vs
    → IsRoundOf vals members height base r (replace t rvs vs)
replace-IsRoundOf vals members height base r t rvs vs (inl p) w s = rw p (record {
  prevotes = subst (λ x. IsSetFor vals members height base r x vs) p s;
  precommits = w.precommits;
})
replace-IsRoundOf vals members height base r t rvs vs (inr p) w s = rw p (record {
  prevotes = w.prevotes;
  precommits = subst (λ x. IsSetFor vals members height base r x vs) p s;
})

-- For a committee as its interface documents it, `AddVote` neither panics on a prevote or a
-- precommit nor breaks the invariant of the vote sets of a height, and it leaves the height, the
-- base and the tracked round alone.
pub hvs_add_vote-IsHeightValid :
    (vals : Validators) (members : List PubKey) (hvs : HeightVoteSet) (vote : Vote)
    → IsCommittee vals members
    → IsVoteType vote.type_
    → IsHeightValid vals members hvs
    → (hvs' : HeightVoteSet) × (added : Bool) × (e : Option VoteError) × (hvs_add_vote vals hvs vote
        ≡ done (hvs', added, e))
      × IsHeightValid vals members hvs'
      × (hvs'.height ≡ hvs.height)
      × (hvs'.base ≡ hvs.base)
      × (hvs'.round ≡ hvs.round)
hvs_add_vote-IsHeightValid vals members hvs vote comm t valid =
    let rvs = round_at hvs vote.round in
    let of_round = round_at-IsRoundOf vals members hvs vote.round valid in
    let (vs', added, e, run, s) =
      set_outcome vals members (pick vote.type_ rvs) vote comm
        (pick-IsSetFor vals members hvs.height hvs.base vote.round vote.type_ rvs t of_round) in
    (
      write_round hvs vote.round (replace vote.type_ rvs vs'),
      added,
      e,
      hvs_add_vote_lem vals hvs vote vs' added e valid.has_height t run,
      write_round-IsHeightValid vals members hvs vote.round (replace vote.type_ rvs vs') valid (
          replace-IsRoundOf vals members hvs.height hvs.base vote.round vote.type_ rvs vs' t
            of_round s),
      refl,
      refl,
      refl,
    )
