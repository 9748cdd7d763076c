-- ===== src/VoteSet/Exchange.antt =====
-- The exchange of missing votes (vote_set.go) between two nodes: what one node records after it was sent
-- the votes that it lacks.
use mathlib.Core.List.{Perm}
use mathlib.Core.Logic.{∥∥₁_elim}
use mathlib.Core.Bool.{Bool-set}
use gobft.Base.{
  ℕ, ℤ, ◌≡◌, refl, sym, ap, ap₂, ◌∙◌, subst, inl, inr, not, ◌&&◌, ◌||◌, Option, some, List, [], ◌∷◌,
  All, All-map, Distinct, lookup, keys, Stored, All-Stored, insert-Distinct, nat_key, done, is_some,
  arith,
}
use gobft.Message.{PubKey, ProposedData, VoteType, Vote}
use gobft.Message.Commits.{present}
use gobft.Committee.{Validators, PrivValidator}
use gobft.Weights.{IsCommittee}
use gobft.VoteSet.{
  VoteSet, ProposedDataVotes, entry_or_new, new_vote_set, add_known_vote, add_verified_vote,
}
use gobft.VoteSet.Outcomes.{next, entry_of, get_vote-entry_of, add_known_vote_outcome}
use gobft.VoteSet.Invariant.{voted, IsRecorded, IsValid}
use gobft.VoteSet.Evidence.{IsTidy, entry-IsRecorded}
use gobft.VoteSet.History.{
  left_by, after_votes, any_counts, voted-after_votes, after_votes-IsValid, after_votes-IsTidy,
}
use gobft.VoteSet.Majority.{other_key}
use gobft.VoteSet.Agreement.{started-IsValid, same-IsCommittee}
use gobft.VoteSet.Missing.{all_voters, make_fetch_votes_req, make_fetch_votes_rsp}
use gobft.VoteSet.Fetch.{make_fetch_votes_rsp-unlisted}
use gobft.VoteSet.Responses.{SameKind, recorded_any, elem-all_voters, present-perm, any_ballots}

-- What any votes leave as it is.
next-SameKind : (vals : Validators) (vs : VoteSet) (v : Vote) → SameKind vs (next vals vs v)
unfolding add_verified_vote
next-SameKind vals vs v = record { base = refl; height = refl; round = refl; type_ = refl }

SameKind-trans : {vs ws us : VoteSet} → SameKind vs ws → SameKind ws us → SameKind vs us
SameKind-trans p q = record {
  base = q.base ∙ p.base;
  height = q.height ∙ p.height;
  round = q.round ∙ p.round;
  type_ = q.type_ ∙ p.type_;
}

SameKind-sym : {vs ws : VoteSet} → SameKind vs ws → SameKind ws vs
SameKind-sym p = record {
  base = sym p.base;
  height = sym p.height;
  round = sym p.round;
  type_ = sym p.type_;
}

after_votes-SameKind :
    (vals : Validators) (vs : VoteSet) (votes : List Vote) → SameKind vs (after_votes vals vs votes)
unfolding after_votes
after_votes-SameKind vals vs [] = record { base = refl; height = refl; round = refl; type_ = refl }
after_votes-SameKind vals vs (v ∷ votes) =
    SameKind-trans
      (elim (add_known_vote_outcome vals vs v) [
        | inl (ok, taken) ↦ rw taken (next-SameKind vals vs v)
        | inr (e, bad, refused) ↦
            rw refused (record { base = refl; height = refl; round = refl; type_ = refl })
      ])
      (after_votes-SameKind vals (left_by vs (add_known_vote vals vs v)) votes)

-- The entries of a set are those of a map: no data stands twice.
abbrev IsKeyed : VoteSet → Type 0
IsKeyed vs = Distinct (keys vs.votes_by_proposed_data)

next-IsKeyed : (vals : Validators) (vs : VoteSet) (v : Vote) → IsKeyed vs → IsKeyed (next vals vs v)
unfolding add_verified_vote
next-IsKeyed vals vs v h = insert-Distinct v.proposed _ vs.votes_by_proposed_data h

after_votes-IsKeyed :
    (vals : Validators) (vs : VoteSet) (votes : List Vote)
    → IsKeyed vs
    → IsKeyed (after_votes vals vs votes)
unfolding after_votes
after_votes-IsKeyed vals vs [] h = h
after_votes-IsKeyed vals vs (v ∷ votes) h =
    after_votes-IsKeyed vals (left_by vs (add_known_vote vals vs v)) votes
      (elim (add_known_vote_outcome vals vs v) [
        | inl (ok, taken) ↦ rw taken (next-IsKeyed vals vs v h)
        | inr (e, bad, refused) ↦ rw refused h
      ])

module _ (vals : Validators) (members : List PubKey) (ws : VoteSet)
    (valid : IsValid vals members ws) (tidy : IsTidy ws) (keyed : IsKeyed ws) where
  one-IsRecorded :
      (e : ProposedData) (pd : ProposedDataVotes)
      → lookup e ws.votes_by_proposed_data ≡ some pd
      → All (λ entry. IsRecorded vals ws e entry.0 entry.1) pd.votes
  one-IsRecorded e pd is =
      let same : (entry_of ws e).votes ≡ pd.votes = ap (λ o. (entry_or_new o).votes) is in
      entry-IsRecorded vals members ws valid tidy e pd.votes (
        subst (λ l. All (Stored (entry_of ws e).votes) l) same
          (All-Stored (entry_of ws e).votes (tidy e)))

  All-IsRecorded :
      All
        (λ e. All (λ entry. IsRecorded vals ws e.0 entry.0 entry.1) e.1.votes)
        ws.votes_by_proposed_data
  All-IsRecorded =
      All-map _ _ ws.votes_by_proposed_data (λ e is. one-IsRecorded e.0 e.1 is)
        (All-Stored ws.votes_by_proposed_data keyed)

  -- The votes that a response holds, in any order, to a node with a set of the same kind.
  response_counts :
      (vs : VoteSet) (now now' : ℕ) (rsp : List (Option Vote)) (d : ProposedData) (a : PubKey)
      → SameKind vs ws
      → Perm rsp (make_fetch_votes_rsp now' ws (make_fetch_votes_req now vs)).missing_votes
      → any_counts vals vs d a (present rsp)
        ≡ (voted ws d a && not (recorded_any vs.votes_by_proposed_data a))
  unfolding make_fetch_votes_req
  response_counts vs now now' rsp d a same perm = ∥∥₁_elim perm (Bool-set _ _) λ p.
      present-perm vals vs d a p
      ∙ ap (λ l. any_counts vals vs d a (present l))
          (make_fetch_votes_rsp-unlisted now' ws (make_fetch_votes_req now vs))
      ∙ any_ballots vals vs d a ws (all_voters vs.votes_by_proposed_data) ws.votes_by_proposed_data
          same keyed All-IsRecorded
      ∙ ap₂ (λ x y. x && not y) (sym (ap is_some (get_vote-entry_of ws d a)))
          (elem-all_voters a vs.votes_by_proposed_data)

no_votes :
    (height round : ℤ) (type_ : VoteType) (base : ProposedData) (start : VoteSet)
    → new_vote_set height round type_ base ≡ done start
    → start.votes_by_proposed_data ≡ []
unfolding new_vote_set
no_votes height round type_ base start e = ground arith

empty-IsTidy : (start : VoteSet) → start.votes_by_proposed_data ≡ [] → IsTidy start × IsKeyed start
unfolding lookup
empty-IsTidy start e = (
  λ d. subst (λ m. Distinct (keys (entry_or_new (lookup d m)).votes)) (sym e) tt,
  subst (λ m. Distinct (keys m)) (sym e) tt,
)

-- Two nodes of one committee, with keys of their own, each start with an empty vote set for the same
-- height, round, type and base, and each receive some votes, of whatever origin. If the one then asks
-- for the votes that it lacks, and adds the votes of the other's response, in any order, a voter is
-- recorded for some data exactly if it was before, or if the other node records it for that data and the
-- one that asks recorded it for no data at all.
pub fetch_exchange :
    (vals : Validators) (key : PrivValidator) (members : List PubKey) (height round : ℤ)
    (type_ : VoteType) (base : ProposedData) (start : VoteSet) (votes votes' : List Vote)
    (now now' : ℕ) (rsp : List (Option Vote)) (d : ProposedData) (a : PubKey)
    → IsCommittee vals members
    → new_vote_set height round type_ base ≡ done start
    → let vs = after_votes vals start votes in
      let ws = after_votes (record vals { priv_val = key }) start votes' in
      Perm rsp (make_fetch_votes_rsp now' ws (make_fetch_votes_req now vs)).missing_votes
      → voted (after_votes vals vs (present rsp)) d a
        ≡ (voted vs d a || (voted ws d a && not (recorded_any vs.votes_by_proposed_data a)))
fetch_exchange vals key members height round type_ base start votes votes' now now' rsp d a comm e
      perm =
    let other = record vals { priv_val = key } in
    let vs = after_votes vals start votes in
    let ws = after_votes other start votes' in
    let facts = empty-IsTidy start (no_votes height round type_ base start e) in
    let valid = other_key vals key members ws (
      after_votes-IsValid other members start votes' (same-IsCommittee vals key members comm)
        (started-IsValid other members height round type_ base start e)) in
    let same =
      SameKind-trans (SameKind-sym (after_votes-SameKind vals start votes))
        (after_votes-SameKind other start votes') in
    voted-after_votes vals vs (present rsp) d a
    ∙ ap (λ b. voted vs d a || b)
        (response_counts vals members ws valid (after_votes-IsTidy other start votes' facts.0)
          (after_votes-IsKeyed other start votes' facts.1) vs now now' rsp d a same perm)
