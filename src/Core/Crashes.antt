-- ===== src/Core/Crashes.antt =====
-- Messages that pass `ValidateBasic` and end the program (bftcore.go).
use gobft.Base.{
  ◌≡◌, refl, inl, inr, ℤ, ◌==ℤ◌, ==ℤ_iff, ltb_ℤ, leb_ℤ, true, false, Option, none, some, List, [],
  ◌∷◌, ◌++◌, ℕ, panic, arith, lookup, int_key, ◌⊎◌, Outcome-cases,
}
use gobft.Message.{Vote, Commit, FetchVotesReq, prevote_type, precommit_type, commit_height}
use gobft.Message.Validate.{validate_commit, validate_fetch_req}
use gobft.HeightVoteSet.{HeightVoteSet, prevotes_of, precommits_of}
use gobft.Core.State.{Core, Env}
use gobft.Core.Votes.{core_add_vote, try_add_vote}
use gobft.Core.Messages.{try_add_votes, handle_commit, handle_fetch, respond_current}

-- A commit holds a nil pointer, after any votes.
pub nil_vote_panics :
    (env : Env) (c : Core) (votes rest : List (Option Vote))
    → try_add_votes env c (votes ++ none ∷ rest) ≡ panic
unfolding try_add_votes try_add_vote core_add_vote
nil_vote_panics env c [] rest = refl
nil_vote_panics env c (v ∷ votes) rest = elim (Outcome-cases (try_add_vote env c v)) [
  | inl e ↦ rw e
  | inr (c', e) ↦ rw e (nil_vote_panics env c' votes rest)
]

-- A commit for the current or a later height that holds a nil precommit anywhere passes
-- `ValidateBasic` like one without it, and makes the handler dereference the nil pointer.
pub handle_commit_nil :
    (env : Env) (c : Core) (commit : Commit) (votes rest : List (Option Vote))
    → validate_commit commit ≡ none
    → leb_ℤ c.height (commit_height commit) ≡ true
    → commit.precommits ≡ votes ++ none ∷ rest
    → handle_commit env c commit ≡ panic
unfolding handle_commit
handle_commit_nil env c commit votes rest ok ahead holds =
    rw (ok, ahead, holds) (nil_vote_panics env _ votes rest)

accepted_type :
    (req : FetchVotesReq)
    → validate_fetch_req req ≡ none
    → (req.type_ ≡ prevote_type) ⊎ (req.type_ ≡ precommit_type)
unfolding validate_fetch_req
accepted_type req ok = ground arith

no_set :
    (votes : HeightVoteSet) (round : ℤ)
    → lookup round votes.round_vote_sets ≡ none
    → (prevotes_of votes round ≡ none) × (precommits_of votes round ≡ none)
unfolding prevotes_of precommits_of
no_set votes round e = (rw (e, prevotes_of), rw (e, precommits_of))

respond_untracked :
    (env : Env) (c : Core) (req : FetchVotesReq) (peer : Option ℕ) (votes : HeightVoteSet)
    → (req.type_ ≡ prevote_type) ⊎ (req.type_ ≡ precommit_type)
    → lookup req.round votes.round_vote_sets ≡ none
    → respond_current env c req peer votes ≡ panic
respond_untracked env c req peer votes (inl t) e = rw (t, (no_set votes req.round e).0)
respond_untracked env c req peer votes (inr t) e = rw (t, (no_set votes req.round e).1)

same_height : (x y : ℤ) → x ≡ y → (ltb_ℤ x y ≡ false) × ((x ==ℤ y) ≡ true)
same_height x y e = (ground arith, (==ℤ_iff x y).1 e)

-- A request for the votes of a round of the current height that is not tracked, such as a negative
-- one, passes `ValidateBasic`, and makes the handler follow a nil vote set.
pub handle_fetch_untracked :
    (env : Env) (c : Core) (req : FetchVotesReq) (peer : Option ℕ) (votes : HeightVoteSet)
    → validate_fetch_req req ≡ none
    → req.height ≡ c.height
    → leb_ℤ req.round c.round ≡ true
    → c.votes ≡ some votes
    → lookup req.round votes.round_vote_sets ≡ none
    → handle_fetch env c req peer ≡ panic
unfolding handle_fetch
handle_fetch_untracked env c req peer votes ok here past v missing =
    let (not_less, same) = same_height req.height c.height here in
    rw (ok, not_less, same, past, v)
      (respond_untracked env _ req peer votes (accepted_type req ok) missing)
