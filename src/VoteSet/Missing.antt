-- ===== src/VoteSet/Missing.antt =====
-- vote_set.go: the request for missing votes and the response to it.
use gobft.Base.{
  ℕ, Bool, true, Option, some, List, [], ◌∷◌, ◌++◌, map, if◌then◌else◌, lookup, insert, nat_key,
  is_some,
}
use gobft.Message.{PubKey, ProposedData, Vote, FetchVotesReq, FetchVotesRsp}
use gobft.VoteSet.{VoteSet, ProposedDataVotes}

-- The keys and the votes of every entry.
abbrev pub all_voters : List (ProposedData × ProposedDataVotes) → List PubKey
all_voters [] = []
all_voters ((d, pd) ∷ m) = map (λ entry. entry.0) pd.votes ++ all_voters m

unfoldable pub make_fetch_votes_req : ℕ → VoteSet → FetchVotesReq
make_fetch_votes_req now vs = record {
  type_ = vs.type_;
  height = vs.height;
  round = vs.round;
  invoker = 0;
  voters = all_voters vs.votes_by_proposed_data;
  time = now;
  signature = [];
}

-- The set `cache` of the requested voters.
abbrev pub cache_of : List PubKey → List (PubKey × Bool)
cache_of [] = []
cache_of (k ∷ ks) = insert k true (cache_of ks)

unfoldable pub missing_in : List (PubKey × Bool) → List (PubKey × Vote) → List (Option Vote)
missing_in cache [] = []
missing_in cache ((k, v) ∷ votes) =
    let rest = missing_in cache votes in if is_some (lookup k cache) then rest else some v ∷ rest

-- The loop over the entries. Go leaves the order of a map open; here it is that of the entries, which is
-- one of the orders that Go may take.
unfoldable pub missing_votes_of :
    List (PubKey × Bool) → List (ProposedData × ProposedDataVotes) → List (Option Vote)
unfolding missing_in
missing_votes_of cache [] = []
missing_votes_of cache ((d, pd) ∷ m) = missing_in cache pd.votes ++ missing_votes_of cache m

unfoldable pub make_fetch_votes_rsp : ℕ → VoteSet → FetchVotesReq → FetchVotesRsp
unfolding missing_votes_of
make_fetch_votes_rsp now vs req = record {
  type_ = vs.type_;
  height = vs.height;
  round = vs.round;
  responser = 0;
  missing_votes = missing_votes_of (cache_of req.voters) vs.votes_by_proposed_data;
  time = now;
  signature = [];
}
