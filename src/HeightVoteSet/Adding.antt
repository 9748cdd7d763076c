-- ===== src/HeightVoteSet/Adding.antt =====
-- `HeightVoteSet.AddVote` (height_vote_set.go).
use gobft.Base.{
  ◌≡◌, refl, ap, ◌∙◌, ◌≢◌, ◌⊎◌, inl, inr, ℤ, pos, ==ℤ_iff, Bool, false, not, Option, none, some,
  ◌==◌, if◌then◌else◌, lookup, lookup-insert, insert-insert, int_key, Outcome, done, panic, ◌>>=◌,
  arith, Option-cases,
}
use gobft.Errors.{VoteError}
use gobft.Message.{VoteType, prevote_type, precommit_type, proposal_type, is_vote_type_valid, Vote}
use gobft.Committee.{Validators}
use gobft.VoteSet.{VoteSet, add_known_vote, add_vote}
use gobft.HeightVoteSet.{
  HeightVoteSet, RoundVoteSet, get_vote_set, find_or_add, put_vote_set, add_to_round, hvs_add_vote,
}
use gobft.HeightVoteSet.Rounds.{fresh_round, with_round, add_round_lem, write_round}

-- A round's vote sets, empty ones where it is not there.
abbrev pub or_fresh : HeightVoteSet → ℤ → Option RoundVoteSet → RoundVoteSet
or_fresh hvs r none = fresh_round hvs r
or_fresh hvs r (some rvs) = rvs

abbrev pub round_at : HeightVoteSet → ℤ → RoundVoteSet
round_at hvs r = or_fresh hvs r (lookup r hvs.round_vote_sets)

abbrev pub pick : VoteType → RoundVoteSet → VoteSet
pick t rvs = if t == prevote_type then rvs.prevotes else rvs.precommits

abbrev pub replace : VoteType → RoundVoteSet → VoteSet → RoundVoteSet
replace t rvs vs =
    if t == prevote_type then record rvs { prevotes = vs } else record rvs { precommits = vs }

-- The two types that a vote set can have.
abbrev pub IsVoteType : VoteType → Type 0
IsVoteType t = (t ≡ prevote_type) ⊎ (t ≡ precommit_type)

get_vote_set-some :
    (hvs : HeightVoteSet) (r : ℤ) (t : VoteType) (rvs : RoundVoteSet)
    → IsVoteType t
    → lookup r hvs.round_vote_sets ≡ some rvs
    → get_vote_set hvs r t ≡ done (some (pick t rvs))
unfolding get_vote_set
get_vote_set-some hvs r t rvs v e = rw (e, get_vote_set) (ground arith)

get_vote_set-none :
    (hvs : HeightVoteSet) (r : ℤ) (t : VoteType)
    → lookup r hvs.round_vote_sets ≡ none
    → get_vote_set hvs r t ≡ done none
unfolding get_vote_set
get_vote_set-none hvs r t e = rw (e, get_vote_set)

put_vote_set-some :
    (hvs : HeightVoteSet) (r : ℤ) (t : VoteType) (rvs : RoundVoteSet) (vs : VoteSet)
    → lookup r hvs.round_vote_sets ≡ some rvs
    → put_vote_set hvs r t vs ≡ write_round hvs r (replace t rvs vs)
unfolding put_vote_set
put_vote_set-some hvs r t rvs vs e = rw (e, put_vote_set)

add_vote-known :
    (vals : Validators) (vs : VoteSet) (vote : Vote)
    → add_vote vals (some vs) (some vote) ≡ add_known_vote vals vs vote
unfolding add_vote
add_vote-known vals vs vote = refl

lookup_fresh :
    (hvs : HeightVoteSet) (r : ℤ)
    → lookup r (with_round hvs r).round_vote_sets ≡ some (fresh_round hvs r)
lookup_fresh hvs r =
    rw (lookup-insert r r (fresh_round hvs r) hvs.round_vote_sets, (==ℤ_iff r r).1 refl)

find-some :
    (hvs : HeightVoteSet) (r : ℤ) (t : VoteType) (rvs : RoundVoteSet)
    → IsVoteType t
    → lookup r hvs.round_vote_sets ≡ some rvs
    → find_or_add hvs r t ≡ done (hvs, some (pick t rvs))
unfolding find_or_add
find-some hvs r t rvs v e = rw (get_vote_set-some hvs r t rvs v e)

find-none :
    (hvs : HeightVoteSet) (r : ℤ) (t : VoteType)
    → IsVoteType t
    → hvs.height ≢ pos 0
    → lookup r hvs.round_vote_sets ≡ none
    → find_or_add hvs r t ≡ done (with_round hvs r, some (pick t (fresh_round hvs r)))
unfolding find_or_add
find-none hvs r t v h e = rw (
  get_vote_set-none hvs r t e,
  add_round_lem hvs r h e,
  get_vote_set-some (with_round hvs r) r t (fresh_round hvs r) v (lookup_fresh hvs r),
)

vote_type_valid : (t : VoteType) → IsVoteType t → not (is_vote_type_valid t) ≡ false
unfolding is_vote_type_valid
vote_type_valid t v = ground arith

add_from :
    (vals : Validators) (hvs found : HeightVoteSet) (vote : Vote) (rvs : RoundVoteSet)
    (vs : VoteSet) (added : Bool) (e : Option VoteError)
    → IsVoteType vote.type_
    → find_or_add hvs vote.round vote.type_ ≡ done (found, some (pick vote.type_ rvs))
    → lookup vote.round found.round_vote_sets ≡ some rvs
    → add_known_vote vals (pick vote.type_ rvs) vote ≡ done (vs, added, e)
    → hvs_add_vote vals hvs vote
      ≡ done (write_round found vote.round (replace vote.type_ rvs vs), added, e)
unfolding hvs_add_vote add_to_round
add_from vals hvs found vote rvs vs added e t search at run = rw (
  vote_type_valid vote.type_ t,
  search,
  add_vote-known vals (pick vote.type_ rvs) vote,
  run,
  put_vote_set-some found vote.round vote.type_ rvs vs at,
)

add_cases :
    (vals : Validators) (hvs : HeightVoteSet) (vote : Vote) (vs : VoteSet) (added : Bool)
    (e : Option VoteError)
    → hvs.height ≢ pos 0
    → IsVoteType vote.type_
    → (at : Option RoundVoteSet) → lookup vote.round hvs.round_vote_sets ≡ at
    → add_known_vote vals (pick vote.type_ (or_fresh hvs vote.round at)) vote ≡ done (vs, added, e)
    → hvs_add_vote vals hvs vote
      ≡ done (
        write_round hvs vote.round (replace vote.type_ (or_fresh hvs vote.round at) vs),
        added,
        e,
      )
add_cases vals hvs vote vs added e h t (some rvs) at run =
    add_from vals hvs hvs vote rvs vs added e t (find-some hvs vote.round vote.type_ rvs t at) at
      run
add_cases vals hvs vote vs added e h t none at run =
    add_from vals hvs (with_round hvs vote.round) vote (fresh_round hvs vote.round) vs added e t
      (find-none hvs vote.round vote.type_ t h at) (lookup_fresh hvs vote.round) run
    ∙ ap (λ m. done (record hvs { round_vote_sets = m }, added, e))
        (insert-insert vote.round (replace vote.type_ (fresh_round hvs vote.round) vs)
          (fresh_round hvs vote.round) hvs.round_vote_sets)

-- At a height that is not 0, `AddVote` of a prevote or a precommit is `addVote` on the one vote
-- set of its round and type, which is made where the round is not there; every other vote set is
-- left alone.
pub hvs_add_vote_lem :
    (vals : Validators) (hvs : HeightVoteSet) (vote : Vote) (vs : VoteSet) (added : Bool)
    (e : Option VoteError)
    → hvs.height ≢ pos 0
    → IsVoteType vote.type_
    → add_known_vote vals (pick vote.type_ (round_at hvs vote.round)) vote ≡ done (vs, added, e)
    → hvs_add_vote vals hvs vote
      ≡ done
          (write_round hvs vote.round (replace vote.type_ (round_at hvs vote.round) vs), added, e)
hvs_add_vote_lem vals hvs vote vs added e h t run =
    add_cases vals hvs vote vs added e h t (lookup vote.round hvs.round_vote_sets) refl run

proposal_type_valid : (t : VoteType) → t ≡ proposal_type → not (is_vote_type_valid t) ≡ false
unfolding is_vote_type_valid
proposal_type_valid t v = ground arith

proposal_found :
    (hvs : HeightVoteSet) (r : ℤ) (rvs : RoundVoteSet)
    → lookup r hvs.round_vote_sets ≡ some rvs
    → get_vote_set hvs r proposal_type ≡ panic
unfolding get_vote_set
proposal_found hvs r rvs e = rw (e, get_vote_set)

proposal_search :
    (hvs : HeightVoteSet) (r : ℤ) → hvs.height ≢ pos 0 → find_or_add hvs r proposal_type ≡ panic
unfolding find_or_add
proposal_search hvs r h = elim (Option-cases (lookup r hvs.round_vote_sets)) [
  | inl e ↦ rw (
    get_vote_set-none hvs r proposal_type e,
    add_round_lem hvs r h e,
    proposal_found (with_round hvs r) r (fresh_round hvs r) (lookup_fresh hvs r),
  )
  | inr (rvs, e) ↦ rw (proposal_found hvs r rvs e)
]

-- At a height that is not 0, a proposal passes `IsVoteTypeValid`, and makes `AddVote` panic.
pub hvs_add_vote-proposal :
    (vals : Validators) (hvs : HeightVoteSet) (vote : Vote)
    → hvs.height ≢ pos 0
    → vote.type_ ≡ proposal_type
    → hvs_add_vote vals hvs vote ≡ panic
unfolding hvs_add_vote add_to_round
hvs_add_vote-proposal vals hvs vote h t =
    rw (proposal_type_valid vote.type_ t)
      (ap (λ m. m >>= rest) (ap (find_or_add hvs vote.round) t ∙ proposal_search hvs vote.round h))
  where
    rest : HeightVoteSet × Option VoteSet → Outcome (HeightVoteSet × Bool × Option VoteError)
    rest x =
        add_vote vals x.1 (some vote)
        >>= (λ y. done (put_vote_set x.0 vote.round vote.type_ y.0, y.1, y.2))
