-- ===== src/VoteSet/Responses.antt =====
-- Which votes of a response (vote_set.go) count in the set of the node that asked.
-- the votes that it lacks.
use mathlib.Core.List.{Permᴰ}
use gobft.Base.{
  ◌≡◌, refl, sym, ap, ap₂, ◌∙◌, subst, ◌≢◌, inl, inr, Bool, true, false, not, ◌&&◌, ◌||◌, Option,
  none, some, List, [], ◌∷◌, ◌++◌, map, All, Distinct, ◌==◌, ==_iff, ==ℤ_iff, lookup, keys, nat_key,
  is_some, arith, Bool-cases,
}
use gobft.Message.{PubKey, ProposedData, Vote}
use gobft.Message.Commits.{present}
use gobft.Committee.{Validators}
use gobft.Weights.{elem}
use gobft.VoteSet.{VoteSet, ProposedDataVotes, entry_or_new}
use gobft.VoteSet.Invariant.{IsRecorded}
use gobft.VoteSet.History.{passes, counts_for, any_counts}
use gobft.VoteSet.Missing.{all_voters}
use gobft.VoteSet.Fetch.{ballots, unlisted, unlisted-append}

-- Whether a voter is recorded for any data.
unfoldable pub recorded_any : List (ProposedData × ProposedDataVotes) → PubKey → Bool
recorded_any [] a = false
recorded_any ((d, pd) ∷ m) a = is_some (lookup a pd.votes) || recorded_any m a

elem-voters :
    (a : PubKey) (votes : List (PubKey × Vote)) (rest : List PubKey)
    → elem a (map (λ entry. entry.0) votes ++ rest) ≡ (is_some (lookup a votes) || elem a rest)
unfolding elem lookup
elem-voters a [] rest = refl
elem-voters a ((k, v) ∷ votes) rest = ground (arith, elem-voters a votes rest)

pub elem-all_voters :
    (a : PubKey) (m : List (ProposedData × ProposedDataVotes))
    → elem a (all_voters m) ≡ recorded_any m a
unfolding elem recorded_any
elem-all_voters a [] = refl
elem-all_voters a ((d, pd) ∷ m) =
    elem-voters a pd.votes (all_voters m)
    ∙ ap (λ b. is_some (lookup a pd.votes) || b) (elem-all_voters a m)

-- Two sets for the votes of one base, height, round and type.
pub record SameKind (vs ws : VoteSet) : Type 0 where
  pub base : ws.base ≡ vs.base
  pub height : ws.height ≡ vs.height
  pub round : ws.round ≡ vs.round
  pub type_ : ws.type_ ≡ vs.type_

recorded-passes :
    (vals : Validators) (vs ws : VoteSet) (e : ProposedData) (k : PubKey) (v : Vote)
    → SameKind vs ws
    → IsRecorded vals ws e k v
    → passes vals vs v ≡ true
recorded-passes vals vs ws e k v same r = ground (
  arith,
  ==ℤ_iff v.height vs.height,
  ==ℤ_iff v.round vs.round,
  r.same_base ∙ same.base,
  r.same_height ∙ same.height,
  r.same_round ∙ same.round,
  r.same_type ∙ same.type_,
  r.verified,
)

-- Whether the entries of a set record a voter for some data.
abbrev pub voted_in : List (ProposedData × ProposedDataVotes) → ProposedData → PubKey → Bool
voted_in m d a = is_some (lookup a (entry_or_new (lookup d m)).votes)

absent :
    (d : ProposedData) (m : List (ProposedData × ProposedDataVotes))
    → All (λ i. i ≢ d) (keys m)
    → lookup d m ≡ none
unfolding lookup
absent d [] h = refl
absent d ((e, pd) ∷ m) h = ground (arith, h.0, ==_iff e d, absent d m h.1)

-- Whether one of the votes of a response counts does not depend on their order.
module _ (vals : Validators) (vs : VoteSet) (d : ProposedData) (a : PubKey) where
  some_counts : Option Vote → Bool
  some_counts none = false
  some_counts (some v) = counts_for vals vs d a v

  any_present :
      (o : Option Vote) (l : List (Option Vote))
      → any_counts vals vs d a (present (o ∷ l))
        ≡ (some_counts o || any_counts vals vs d a (present l))
  unfolding any_counts some_counts
  any_present none l = refl
  any_present (some v) l = refl

  any_append :
      (l l' : List (Option Vote))
      → any_counts vals vs d a (present (l ++ l'))
        ≡ (any_counts vals vs d a (present l) || any_counts vals vs d a (present l'))
  unfolding any_counts
  any_append [] l' = refl
  any_append (o ∷ l) l' =
      rw (any_present o (l ++ l'), any_present o l, any_append l l') (ground arith)

  pub present-perm :
      {l l' : List (Option Vote)}
      → Permᴰ l l'
      → any_counts vals vs d a (present l) ≡ any_counts vals vs d a (present l')
  present-perm Permᴰ.nil = refl
  present-perm (Permᴰ.cons {a = o} {b = o'} {l₁ = l} {l₂ = l'} e p) =
      any_present o l ∙ ap₂ (λ x y. some_counts x || y) e (present-perm p) ∙ sym (any_present o' l')
  present-perm (Permᴰ.swap {a = v} {b = w} {l = l} e f) =
      rw (← e, ← f, any_present v (w ∷ l), any_present w l, any_present w (v ∷ l), any_present v l)
        (ground arith)
  present-perm (Permᴰ.trans p q) = present-perm p ∙ present-perm q

  -- The votes of a list as those of one entry of a set of the same kind.
  any_entry :
      (ws : VoteSet) (voters : List PubKey) (e : ProposedData) (votes : List (PubKey × Vote))
      → SameKind vs ws
      → All (λ entry. IsRecorded vals ws e entry.0 entry.1) votes
      → any_counts vals vs d a (present (unlisted voters votes))
        ≡ (e == d && (is_some (lookup a votes) && not (elem a voters)))
  unfolding any_counts lookup
  any_entry ws voters e [] same h = ground arith
  any_entry ws voters e ((k, v) ∷ votes) same h =
      let rest = any_entry ws voters e votes same h.1 in
      let passed : passes vals vs v ≡ true = recorded-passes vals vs ws e k v same h.0 in
      elim (Bool-cases (k == a)) [
        | inl hit ↦ elim (Bool-cases (elem k voters)) [
          | inl in_ ↦
              rw (in_, hit) (rest ∙ ground (arith, ap (λ x. elem x voters) ((==_iff k a).0 hit)))
          | inr out ↦
              rw (out, passed, h.0.same_data, h.0.same_voter, hit, rest)
                (ground (arith, ap (λ x. elem x voters) ((==_iff k a).0 hit)))
        ]
        | inr miss ↦ elim (Bool-cases (elem k voters)) [
          | inl in_ ↦ rw (in_, miss) rest
          | inr out ↦ rw (out, passed, h.0.same_data, h.0.same_voter, miss, rest) (ground arith)
        ]
      ]

  pub any_ballots :
      (ws : VoteSet) (voters : List PubKey) (m : List (ProposedData × ProposedDataVotes))
      → SameKind vs ws
      → Distinct (keys m)
      → All (λ e. All (λ entry. IsRecorded vals ws e.0 entry.0 entry.1) e.1.votes) m
      → any_counts vals vs d a (present (unlisted voters (ballots m)))
        ≡ (voted_in m d a && not (elem a voters))
  unfolding any_counts lookup
  any_ballots ws voters [] same dis h = refl
  any_ballots ws voters ((e, pd) ∷ m) same dis h =
      let first = any_entry ws voters e pd.votes same h.0 in
      let rest = any_ballots ws voters m same dis.1 h.1 in
      rw
        (
          unlisted-append voters pd.votes (ballots m),
          any_append (unlisted voters pd.votes) (unlisted voters (ballots m)),
          first,
          rest,
        )
        (elim (Bool-cases (e == d)) [
          | inl hit ↦
              rw
                (
                  hit,
                  absent d m (subst (λ x. All (λ i. i ≢ x) (keys m)) ((==_iff e d).0 hit) dis.0),
                )
                (ground arith)
          | inr miss ↦ rw miss
        ])
