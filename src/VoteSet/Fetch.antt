-- ===== src/VoteSet/Fetch.antt =====
-- The exchange of missing votes (`MakeFetchVotesReq` and `MakeFetchVotesRsp` in vote_set.go).
use gobft.Base.{
  ℕ, ◌≡◌, refl, sym, ap, ap₂, ◌∙◌, inl, inr, true, Option, some, List, [], ◌∷◌, ◌++◌, if◌then◌else◌,
  lookup, lookup-insert, nat_key, is_some, arith, Bool-cases,
}
use gobft.Message.{PubKey, ProposedData, Vote, FetchVotesReq}
use gobft.Weights.{elem}
use gobft.VoteSet.{ProposedDataVotes, VoteSet}
use gobft.VoteSet.Missing.{cache_of, missing_in, missing_votes_of, make_fetch_votes_rsp}

-- The votes of every entry, with their voters.
abbrev pub ballots : List (ProposedData × ProposedDataVotes) → List (PubKey × Vote)
ballots [] = []
ballots ((d, pd) ∷ m) = pd.votes ++ ballots m

-- The votes of the voters that are not on the list.
abbrev pub unlisted : List PubKey → List (PubKey × Vote) → List (Option Vote)
unlisted voters [] = []
unlisted voters ((k, v) ∷ votes) =
    let rest = unlisted voters votes in if elem k voters then rest else some v ∷ rest

cached : (voters : List PubKey) (k : PubKey) → is_some (lookup k (cache_of voters)) ≡ elem k voters
unfolding elem lookup
cached [] k = refl
cached (j ∷ voters) k = ground (arith, lookup-insert j k true (cache_of voters), cached voters k)

missing_in-unlisted :
    (voters : List PubKey) (votes : List (PubKey × Vote))
    → missing_in (cache_of voters) votes ≡ unlisted voters votes
unfolding missing_in
missing_in-unlisted voters [] = refl
missing_in-unlisted voters ((k, v) ∷ votes) = rw (cached voters k, missing_in-unlisted voters votes)

pub unlisted-append :
    (voters : List PubKey) (xs ys : List (PubKey × Vote))
    → unlisted voters (xs ++ ys) ≡ unlisted voters xs ++ unlisted voters ys
unlisted-append voters [] ys = refl
unlisted-append voters ((k, v) ∷ xs) ys = elim (Bool-cases (elem k voters)) [
  | inl e ↦ rw e (unlisted-append voters xs ys)
  | inr e ↦ rw e (ap (◌∷◌ (some v)) (unlisted-append voters xs ys))
]

missing-unlisted :
    (voters : List PubKey) (m : List (ProposedData × ProposedDataVotes))
    → missing_votes_of (cache_of voters) m ≡ unlisted voters (ballots m)
unfolding missing_votes_of
missing-unlisted voters [] = refl
missing-unlisted voters ((d, pd) ∷ m) =
    ap₂ (λ x y. x ++ y) (missing_in-unlisted voters pd.votes) (missing-unlisted voters m)
    ∙ sym (unlisted-append voters pd.votes (ballots m))

-- A response holds the recorded votes whose voter was not asked to be left out. Go leaves their order
-- open; here it is that of the entries.
pub make_fetch_votes_rsp-unlisted :
    (now : ℕ) (vs : VoteSet) (req : FetchVotesReq)
    → (make_fetch_votes_rsp now vs req).missing_votes
      ≡ unlisted req.voters (ballots vs.votes_by_proposed_data)
unfolding make_fetch_votes_rsp
make_fetch_votes_rsp-unlisted now vs req = missing-unlisted req.voters vs.votes_by_proposed_data
