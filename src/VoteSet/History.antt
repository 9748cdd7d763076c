-- ===== src/VoteSet/History.antt =====
-- A vote set over a sequence of `AddVote` calls (vote_set.go): which votes it ends up holding does not
-- depend on the order in which they arrive.
use mathlib.Core.List.{Perm, Permᴰ}
use mathlib.Core.Logic.{∥∥₁_elim}
use native.Mathlib.Nat.{ℕ_set}
use gobft.Base.{
  ◌≡◌, refl, sym, ap, ◌∙◌, inl, inr, ◌==ℤ◌, ==ℤ_iff, Bool, true, false, ◌&&◌, ◌||◌, Option, none,
  List, [], ◌∷◌, ◌==◌, Outcome, done, panic, arith, Bool-cases, Option-cases, ap₂,
}
use gobft.Errors.{VoteError}
use gobft.Message.{PubKey, ProposedData, Vote}
use gobft.Committee.{Validators, verify_signature}
use gobft.Weights.{IsCommittee, power_of, weight-cong}
use gobft.VoteSet.{VoteSet, get_vote, add_known_vote, add_verified_vote}
use gobft.VoteSet.Outcomes.{next, IsAcceptable, add_known_vote_outcome, get_vote-next}
use gobft.VoteSet.Invariant.{voted, tally, IsValid}
use gobft.VoteSet.Majority.{add_known_vote-IsValid}
use gobft.VoteSet.Evidence.{IsTidy, next-IsTidy}

-- The set that a call leaves.
abbrev pub left_by : VoteSet → Outcome (VoteSet × Bool × Option VoteError) → VoteSet
left_by vs panic = vs
left_by vs (done (vs', added, e)) = vs'

-- The calls in turn.
unfoldable pub after_votes : Validators → VoteSet → List Vote → VoteSet
after_votes vals vs [] = vs
after_votes vals vs (v ∷ votes) = after_votes vals (left_by vs (add_known_vote vals vs v)) votes

-- The checks of a vote that do not look at the votes recorded so far.
abbrev pub passes : Validators → VoteSet → Vote → Bool
passes vals vs v =
    v.prev == vs.base
    && (v.height ==ℤ vs.height
        && (v.round ==ℤ vs.round && (v.type_ == vs.type_ && verify_signature vals v)))

-- A vote that passes, for this data, from this voter.
abbrev pub counts_for : Validators → VoteSet → ProposedData → PubKey → Vote → Bool
counts_for vals vs d a v = passes vals vs v && (v.proposed == d && v.address == a)

unfoldable pub any_counts : Validators → VoteSet → ProposedData → PubKey → List Vote → Bool
any_counts vals vs d a [] = false
any_counts vals vs d a (v ∷ votes) = counts_for vals vs d a v || any_counts vals vs d a votes

acceptable-passes :
    (vals : Validators) (vs : VoteSet) (v : Vote) → IsAcceptable vals vs v → passes vals vs v ≡ true
acceptable-passes vals vs v ok =
    ground (arith, ==ℤ_iff v.height vs.height, ==ℤ_iff v.round vs.round)

passes-IsAcceptable :
    (vals : Validators) (vs : VoteSet) (v : Vote)
    → passes vals vs v ≡ true
    → get_vote vs v.proposed v.address ≡ none
    → IsAcceptable vals vs v
passes-IsAcceptable vals vs v p n =
    ground (arith, ==ℤ_iff v.height vs.height, ==ℤ_iff v.round vs.round)

taken-voted :
    (vals : Validators) (vs : VoteSet) (v : Vote) (d : ProposedData) (a : PubKey)
    → IsAcceptable vals vs v
    → voted (next vals vs v) d a ≡ (counts_for vals vs d a v || voted vs d a)
taken-voted vals vs v d a ok =
    rw (get_vote-next vals vs v d a ok.unseen, acceptable-passes vals vs v ok) (ground arith)

refused-voted :
    (vals : Validators) (vs : VoteSet) (v : Vote) (d : ProposedData) (a : PubKey)
    → ¬ IsAcceptable vals vs v
    → voted vs d a ≡ (counts_for vals vs d a v || voted vs d a)
refused-voted vals vs v d a bad = elim (Bool-cases (counts_for vals vs d a v)) [
  | inr miss ↦ rw miss
  | inl hit ↦
      let passed : passes vals vs v ≡ true = ground arith in
      let same_d : v.proposed ≡ d = ground arith in
      let same_a : v.address ≡ a = ground arith in
      elim (Option-cases (get_vote vs v.proposed v.address)) [
        | inl n ↦ absurd (bad (passes-IsAcceptable vals vs v passed n))
        | inr (w, e) ↦ rw (hit, sym (ap₂ (get_vote vs) same_d same_a) ∙ e)
      ]
]

voted-step :
    (vals : Validators) (vs : VoteSet) (v : Vote) (d : ProposedData) (a : PubKey)
    → voted (left_by vs (add_known_vote vals vs v)) d a ≡ (counts_for vals vs d a v || voted vs d a)
voted-step vals vs v d a = elim (add_known_vote_outcome vals vs v) [
  | inl (ok, taken) ↦ rw taken (taken-voted vals vs v d a ok)
  | inr (e, bad, refused) ↦ rw refused (refused-voted vals vs v d a bad)
]

next-passes :
    (vals : Validators) (vs : VoteSet) (v w : Vote)
    → passes vals (next vals vs v) w ≡ passes vals vs w
unfolding add_verified_vote
next-passes vals vs v w = refl

left-passes :
    (vals : Validators) (vs : VoteSet) (v w : Vote)
    → passes vals (left_by vs (add_known_vote vals vs v)) w ≡ passes vals vs w
left-passes vals vs v w = elim (add_known_vote_outcome vals vs v) [
  | inl (ok, taken) ↦ rw taken (next-passes vals vs v w)
  | inr (e, bad, refused) ↦ rw refused
]

left-any :
    (vals : Validators) (vs : VoteSet) (v : Vote) (d : ProposedData) (a : PubKey)
    (votes : List Vote)
    → any_counts vals (left_by vs (add_known_vote vals vs v)) d a votes
      ≡ any_counts vals vs d a votes
unfolding any_counts
left-any vals vs v d a [] = refl
left-any vals vs v d a (w ∷ votes) = rw (left-passes vals vs v w, left-any vals vs v d a votes)

-- After any votes, a voter is recorded for some data exactly if it was before, or if one of the votes
-- passes the checks and is the voter's for that data.
pub voted-after_votes :
    (vals : Validators) (vs : VoteSet) (votes : List Vote) (d : ProposedData) (a : PubKey)
    → voted (after_votes vals vs votes) d a ≡ (voted vs d a || any_counts vals vs d a votes)
unfolding after_votes any_counts
voted-after_votes vals vs [] d a = ground arith
voted-after_votes vals vs (v ∷ votes) d a =
    rw
      (
        voted-after_votes vals (left_by vs (add_known_vote vals vs v)) votes d a,
        voted-step vals vs v d a,
        left-any vals vs v d a votes,
      )
      (ground arith)

or_swap : (x y z : Bool) → (x || (y || z)) ≡ (y || (x || z))
or_swap x y z = ground arith

any-perm :
    (vals : Validators) (vs : VoteSet) (d : ProposedData) (a : PubKey) {votes votes' : List Vote}
    → Permᴰ votes votes'
    → any_counts vals vs d a votes ≡ any_counts vals vs d a votes'
unfolding any_counts
any-perm vals vs d a Permᴰ.nil = refl
any-perm vals vs d a (Permᴰ.cons e p) =
    ap₂ (λ v rest. counts_for vals vs d a v || rest) e (any-perm vals vs d a p)
any-perm vals vs d a (Permᴰ.swap {a = v} {b = w} {l = l} e f) =
    rw (← e, ← f) (or_swap (counts_for vals vs d a v) (counts_for vals vs d a w) _)
any-perm vals vs d a (Permᴰ.trans p q) = any-perm vals vs d a p ∙ any-perm vals vs d a q

-- The order in which votes arrive does not matter to the tallies: after the same votes in any order,
-- the same power stands behind each data.
pub tally_order :
    (vals : Validators) (members : List PubKey) (vs : VoteSet) (votes votes' : List Vote)
    (d : ProposedData)
    → Perm votes votes'
    → tally vals members (after_votes vals vs votes) d
      ≡ tally vals members (after_votes vals vs votes') d
unfolding tally
tally_order vals members vs votes votes' d p = ∥∥₁_elim p (ℕ_set _ _) λ q.
    weight-cong (power_of vals) _ _ members (λ a.
      voted-after_votes vals vs votes d a
      ∙ (ap (λ b. voted vs d a || b) (any-perm vals vs d a q)
          ∙ sym (voted-after_votes vals vs votes' d a)))

-- For a committee as its interface documents it, any sequence of votes, of whatever origin, keeps
-- the invariant of a vote set: every recorded vote passed the checks, every running sum is the
-- power recorded, and there is a majority exactly if data that is not nil has more than two thirds
-- of the power.
pub after_votes-IsValid :
    (vals : Validators) (members : List PubKey) (vs : VoteSet) (votes : List Vote)
    → IsCommittee vals members
    → IsValid vals members vs
    → IsValid vals members (after_votes vals vs votes)
unfolding after_votes
after_votes-IsValid vals members vs [] comm valid = valid
after_votes-IsValid vals members vs (v ∷ votes) comm valid =
    after_votes-IsValid vals members (left_by vs (add_known_vote vals vs v)) votes comm
      (elim (add_known_vote_outcome vals vs v) [
        | inl (ok, taken) ↦ rw taken (add_known_vote-IsValid vals members vs _ v comm valid taken)
        | inr (e, bad, refused) ↦ rw refused valid
      ])

pub after_votes-IsTidy :
    (vals : Validators) (vs : VoteSet) (votes : List Vote)
    → IsTidy vs
    → IsTidy (after_votes vals vs votes)
unfolding after_votes
after_votes-IsTidy vals vs [] tidy = tidy
after_votes-IsTidy vals vs (v ∷ votes) tidy =
    after_votes-IsTidy vals (left_by vs (add_known_vote vals vs v)) votes
      (elim (add_known_vote_outcome vals vs v) [
        | inl (ok, taken) ↦ rw taken (next-IsTidy vals vs v tidy)
        | inr (e, bad, refused) ↦ rw refused tidy
      ])
