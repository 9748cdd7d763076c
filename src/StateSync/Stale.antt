-- ===== src/StateSync/Stale.antt =====
-- Votes for heights that the core has passed (state_sync.go).
use gobft.Base.{
  ◌+◌, ◌*◌, ◌/◌, ◌≤◌, ◌<◌, ◌≡◌, refl, ap, ◌∙◌, ◌≢◌, inl, inr, ℤ, pos, int64_add, ◌==ℤ◌, ==ℤ_iff,
  leb_ℤ, Bool, true, false, Option, none, some, List, [], ◌∷◌, if◌then◌else◌, lookup, insert,
  lookup-insert, int_key, done, >>=-run, arith, Bool-cases,
}
use gobft.Errors.{VoteError}
use gobft.Message.{PubKey, ProposedData, VoteType, Vote, prevote_type, precommit_type}
use gobft.Committee.{Validators}
use gobft.Weights.{IsCommittee, power_of, weight, everyone}
use gobft.VoteSet.{
  VoteSet, has_two_thirds_majority, has_two_thirds_any, add_known_vote, add_verified_vote,
  pd_add_vote,
}
use gobft.VoteSet.Invariant.{total, two_thirds_eq, quorum_eq}
use gobft.VoteSet.Outcomes.{next, add_known_vote_outcome}
use gobft.HeightVoteSet.{
  HeightVoteSet, RoundVoteSet, prevotes_of, precommits_of, new_height_vote_set, hvs_add_vote,
}
use gobft.HeightVoteSet.Rounds.{fresh_set, fresh_round, add_round_lem, write_round}
use gobft.HeightVoteSet.Adding.{round_at, pick, replace, IsVoteType, hvs_add_vote_lem}
use gobft.Core.State.{Core, Env, validators_of}
use gobft.Core.NextHeight.{first_round}
use gobft.StateSync.{
  StateSync, prune, votes_by_height, sync_prevote, sync_precommit, sync_added, sync_add_vote,
}

lookup-prune :
    (height k : ℤ) (m : List (ℤ × HeightVoteSet))
    → lookup k (prune height m) ≡ (if leb_ℤ k height then none else lookup k m)
unfolding lookup prune
lookup-prune height k [] = ground arith
lookup-prune height k ((j, votes) ∷ rest) = elim (Bool-cases (j ==ℤ k)) [
  | inl hit ↦
      let same : j ≡ k = (==ℤ_iff j k).0 hit in
      ground (arith, ==ℤ_iff j k, ap (λ x. leb_ℤ x height) same, lookup-prune height k rest)
  | inr miss ↦ ground (arith, lookup-prune height k rest)
]

-- The vote set has no two thirds: neither of one data nor of any.
abbrev IsSmall : Validators → VoteSet → Type 0
IsSmall vals vs =
    (has_two_thirds_majority (some vs) ≡ false) × (has_two_thirds_any vals (some vs) ≡ false)

total_eq :
    (vals : Validators) (members : List PubKey)
    → total vals members ≡ weight (power_of vals) everyone members
unfolding total
total_eq vals members = refl

single :
    (vals : Validators) (members : List PubKey) (height round : ℤ) (t : VoteType)
    (base : ProposedData) (v : Vote)
    → IsCommittee vals members
    → power_of vals v.address ≤ 2 * total vals members / 3
    → IsSmall vals (next vals (fresh_set height round t base) v)
unfolding add_verified_vote has_two_thirds_majority has_two_thirds_any pd_add_vote lookup
single vals members height round t base v comm small =
    let bound : 0 + power_of vals v.address < 9223372036854775808 =
      omega (arith, comm.small, total_eq vals members) in
    rw
      (
        comm.powers v.address,
        quorum_eq vals members comm,
        two_thirds_eq vals members comm,
        int64_add 0 (power_of vals v.address) bound,
      )
      (ground arith)

first_round-run :
    (height : ℤ) (base : ProposedData)
    → height ≢ pos 0
    → new_height_vote_set height base ≡ done (first_round height base)
unfolding new_height_vote_set lookup
first_round-run height base h = add_round_lem _ (pos 0) h refl

round_at-first_round :
    (height : ℤ) (base : ProposedData) (r : ℤ)
    → round_at (first_round height base) r ≡ fresh_round (first_round height base) r
unfolding lookup insert
round_at-first_round height base r = elim (Bool-cases (pos 0 ==ℤ r)) [
  | inl hit ↦ rw hit (ap (fresh_round (first_round height base)) ((==ℤ_iff (pos 0) r).0 hit))
  | inr miss ↦ rw miss
]

-- The vote set that a vote goes to.
written :
    (hvs : HeightVoteSet) (r : ℤ) (rvs : RoundVoteSet)
    → (prevotes_of (write_round hvs r rvs) r ≡ some rvs.prevotes)
      × (precommits_of (write_round hvs r rvs) r ≡ some rvs.precommits)
unfolding prevotes_of precommits_of
written hvs r rvs =
    let found : lookup r (insert r rvs hvs.round_vote_sets) ≡ some rvs =
      lookup-insert r r rvs hvs.round_vote_sets ∙ rw ((==ℤ_iff r r).1 refl) in
    (rw (found, prevotes_of), rw (found, precommits_of))

sync_prevote-small :
    (env : Env) (s : StateSync) (c : Core) (v : Vote) (votes : HeightVoteSet) (vs : VoteSet)
    → prevotes_of votes v.round ≡ some vs
    → IsSmall (validators_of env c) vs
    → sync_prevote env s c v votes ≡ done (s, c)
unfolding sync_prevote
sync_prevote-small env s c v votes vs at (maj, any) = rw (at, maj, any)

sync_precommit-small :
    (env : Env) (s : StateSync) (c : Core) (v : Vote) (votes : HeightVoteSet) (vs : VoteSet)
    → precommits_of votes v.round ≡ some vs
    → IsSmall (validators_of env c) vs
    → sync_precommit env s c v votes ≡ done (s, c)
unfolding sync_precommit
sync_precommit-small env s c v votes vs at (maj, any) = rw (at, sync_precommit, maj, any)

by_prevote :
    (env : Env) (s : StateSync) (c : Core) (v : Vote) (votes : HeightVoteSet)
    → v.type_ ≡ prevote_type
    → sync_added env s c v votes ≡ sync_prevote env s c v votes
unfolding sync_added
by_prevote env s c v votes t = ground arith

by_precommit :
    (env : Env) (s : StateSync) (c : Core) (v : Vote) (votes : HeightVoteSet)
    → v.type_ ≡ precommit_type
    → sync_added env s c v votes ≡ sync_precommit env s c v votes
unfolding sync_added
by_precommit env s c v votes t = ground arith

small-added :
    (env : Env) (s : StateSync) (c : Core) (v : Vote) (hvs : HeightVoteSet) (rvs : RoundVoteSet)
    (vs : VoteSet)
    → IsVoteType v.type_
    → IsSmall (validators_of env c) vs
    → sync_added env s c v (write_round hvs v.round (replace v.type_ rvs vs)) ≡ done (s, c)
small-added env s c v hvs rvs vs (inl t) small =
    let hvs' = write_round hvs v.round (replace v.type_ rvs vs) in
    let at : prevotes_of hvs' v.round ≡ some vs =
      (written hvs v.round (replace v.type_ rvs vs)).0 ∙ rw t in
    by_prevote env s c v hvs' t ∙ sync_prevote-small env s c v hvs' vs at small
small-added env s c v hvs rvs vs (inr t) small =
    let hvs' = write_round hvs v.round (replace v.type_ rvs vs) in
    let at : precommits_of hvs' v.round ≡ some vs =
      (written hvs v.round (replace v.type_ rvs vs)).1 ∙ rw t in
    by_precommit env s c v hvs' t ∙ sync_precommit-small env s c v hvs' vs at small

pick_fresh :
    (hvs : HeightVoteSet) (r : ℤ) (t : VoteType)
    → IsVoteType t
    → pick t (fresh_round hvs r) ≡ fresh_set hvs.height r t hvs.base
pick_fresh hvs r t (inl e) = rw e
pick_fresh hvs r t (inr e) = rw e

-- What is left in the map: the votes of the heights ahead, and those of one height besides.
abbrev pub LeavesAhead : StateSync → StateSync → ℤ → ℤ → Type 0
LeavesAhead s s' core_height height =
    (k : ℤ)
    → k ≢ height
    → lookup k s'.height_votes ≡ (if leb_ℤ k core_height then none else lookup k s.height_votes)

-- The map after the votes of a height are written.
abbrev with_votes : StateSync → ℤ → ℤ → HeightVoteSet → StateSync
with_votes s core_height height votes = record {
  height_votes = insert height votes (prune core_height s.height_votes);
}

with_votes-LeavesAhead :
    (s : StateSync) (core_height height : ℤ) (votes : HeightVoteSet)
    → LeavesAhead s (with_votes s core_height height votes) core_height height
with_votes-LeavesAhead s core_height height votes k other = ground (
  arith,
  ==ℤ_iff height k,
  lookup-insert height k votes (prune core_height s.height_votes),
  lookup-prune core_height k s.height_votes,
)

module _ (env : Env) (s : StateSync) (c : Core) (v : Vote) where
  -- The call, from the votes of the height and what `AddVote` does to them.
  sync-run :
      (votes votes' : HeightVoteSet) (added : Bool) (e : Option VoteError)
      → votes_by_height v.height c.last_committed_data (prune c.height s.height_votes) ≡ done votes
      → hvs_add_vote (validators_of env c) votes v ≡ done (votes', added, e)
      → sync_add_vote env s c (some v) ≡ (
          if added
          then sync_added env (with_votes s c.height v.height votes') c v votes'
          else done (with_votes s c.height v.height votes', c))
  unfolding sync_add_vote
  sync-run votes votes' added e is run =
      >>=-run (votes_by_height v.height c.last_committed_data (prune c.height s.height_votes)) _ is
      ∙ >>=-run (hvs_add_vote (validators_of env c) votes v) _ run

  fresh_votes :
      v.height ≢ pos 0
      → leb_ℤ v.height c.height ≡ true
      → votes_by_height v.height c.last_committed_data (prune c.height s.height_votes)
        ≡ done (first_round v.height c.last_committed_data)
  unfolding votes_by_height
  fresh_votes h old =
      let gone : lookup v.height (prune c.height s.height_votes) ≡ none =
        lookup-prune c.height v.height s.height_votes ∙ rw old in
      rw (gone, votes_by_height) (first_round-run v.height c.last_committed_data h)

  -- The first vote of a height goes to an empty vote set.
  first_vote :
      (vs : VoteSet) (added : Bool) (e : Option VoteError)
      → IsVoteType v.type_
      → v.height ≢ pos 0
      → add_known_vote
          (validators_of env c)
          (fresh_set v.height v.round v.type_ c.last_committed_data)
          v
        ≡ done (vs, added, e)
      → hvs_add_vote (validators_of env c) (first_round v.height c.last_committed_data) v
        ≡ done (
          write_round
              (first_round v.height c.last_committed_data)
              v.round
              (replace v.type_ (round_at (first_round v.height c.last_committed_data) v.round) vs),
          added,
          e,
        )
  first_vote vs added e t h run =
      let hvs = first_round v.height c.last_committed_data in
      let is_fresh : pick v.type_ (round_at hvs v.round)
          ≡ fresh_set v.height v.round v.type_ c.last_committed_data =
        ap (pick v.type_) (round_at-first_round v.height c.last_committed_data v.round)
        ∙ pick_fresh hvs v.round v.type_ t in
      hvs_add_vote_lem (validators_of env c) hvs v vs added e h t
        (ap (λ x. add_known_vote (validators_of env c) x v) is_fresh ∙ run)

  -- A vote for a height that the core has reached or passed cannot move the core by `StateSync`,
  -- unless its voter alone has more than two thirds of the committee's power: the call returns, the
  -- core is unchanged, the votes of the heights ahead are kept, and those of every height up to
  -- the core's are gone, but for the height of the vote. This holds of a prevote or a precommit at
  -- a height that is not 0, and of a committee as its interface documents it.
  pub sync_add_vote-LeavesAhead :
      (members : List PubKey)
      → IsCommittee (validators_of env c) members
      → IsVoteType v.type_
      → v.height ≢ pos 0
      → leb_ℤ v.height c.height ≡ true
      → power_of (validators_of env c) v.address ≤ 2 * total (validators_of env c) members / 3
      → (s' : StateSync) × (sync_add_vote env s c (some v) ≡ done (s', c))
        × LeavesAhead s s' c.height v.height
  sync_add_vote-LeavesAhead members comm t h old small =
      let vals = validators_of env c in
      let hvs = first_round v.height c.last_committed_data in
      let empty = fresh_set v.height v.round v.type_ c.last_committed_data in
      let result =
        λ (vs : VoteSet). write_round hvs v.round (replace v.type_ (round_at hvs v.round) vs) in
      let left = λ (vs : VoteSet). with_votes s c.height v.height (result vs) in
      let leaves = λ (vs : VoteSet). with_votes-LeavesAhead s c.height v.height (result vs) in
      elim (add_known_vote_outcome vals empty v) [
        | inl (ok, taken) ↦
            let vs = next vals empty v in
            let few =
              single vals members v.height v.round v.type_ c.last_committed_data v comm small in
            (
              left vs,
              sync-run hvs (result vs) true none (fresh_votes h old)
                    (first_vote vs true none t h taken)
                  ∙ small-added env (left vs) c v hvs (round_at hvs v.round) vs t few,
              leaves vs,
            )
        | inr (e, bad, refused) ↦ (
          left empty,
          sync-run hvs (result empty) false (some e) (fresh_votes h old)
              (first_vote empty false (some e) t h refused),
          leaves empty,
        )
      ]
