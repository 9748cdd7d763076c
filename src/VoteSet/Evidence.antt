-- ===== src/VoteSet/Evidence.antt =====
-- `MakeCommit` (vote_set.go): the evidence of a decision is a commit that every node accepts.
use gobft.Base.{
  ℕ, ◌≡◌, refl, sym, ap, ◌∙◌, subst, ◌≢◌, inl, inr, ℤ, false, none, some, List, [], ◌∷◌, map, All,
  All-map, Distinct, ◌==◌, lookup, insert-Distinct, keys, Stored, All-Stored, nat_key, done,
  is_some, arith, Bool-cases, Option-cases,
}
use gobft.Message.{
  PubKey, ProposedData, nil_data, precommit_type, Vote, Commit, commit_height, commit_round,
}
use gobft.Message.Validate.{validate_commit}
use gobft.Message.Commits.{present, address_of, Agrees, IsWellFormed, validate_commit_iff}
use gobft.Committee.{Validators, sign_commit}
use gobft.Weights.{power_of, weight-none, weight-cong}
use gobft.VoteSet.{VoteSet, ProposedDataVotes, pd_add_vote, commit_of, make_commit, get_all_votes}
use gobft.VoteSet.Outcomes.{next, entry_of, entry_of-next, get_vote-entry_of}
use gobft.VoteSet.Invariant.{voted, tally, HasQuorum, IsRecorded, IsValid}

-- No voter stands twice under one proposed data.
abbrev pub IsTidy : VoteSet → Type 0
IsTidy vs = (d : ProposedData) → Distinct (keys (entry_of vs d).votes)

pd_add_vote-tidy :
    (pd : ProposedDataVotes) (vote : Vote) (power : ℤ)
    → Distinct (keys pd.votes)
    → Distinct (keys (pd_add_vote pd vote power).votes)
unfolding pd_add_vote
pd_add_vote-tidy pd vote power h = elim (Bool-cases (is_some (lookup vote.address pd.votes))) [
  | inl e ↦ rw e h
  | inr e ↦ rw e (insert-Distinct vote.address vote pd.votes h)
]

pub next-IsTidy :
    (vals : Validators) (vs : VoteSet) (vote : Vote) → IsTidy vs → IsTidy (next vals vs vote)
next-IsTidy vals vs vote h d =
    rw (entry_of-next vals vs vote d) (elim (Bool-cases (vote.proposed == d)) [
      | inl e ↦ rw e (pd_add_vote-tidy (entry_of vs vote.proposed) vote _ (h vote.proposed))
      | inr e ↦ rw e (h d)
    ])

module _ (vals : Validators) (members : List PubKey) (vs : VoteSet)
    (valid : IsValid vals members vs) (tidy : IsTidy vs) where
  -- The votes under some data, each as it was checked.
  pub entry-IsRecorded :
      (d : ProposedData) (votes : List (PubKey × Vote))
      → All (Stored (entry_of vs d).votes) votes
      → All (λ entry. IsRecorded vals vs d entry.0 entry.1) votes
  entry-IsRecorded d votes h =
      All-map _ _ votes
        (λ entry e. valid.recorded d entry.0 entry.1 (get_vote-entry_of vs d entry.0 ∙ e)) h

  present_some : (vs : List Vote) → present (map some vs) ≡ vs
  present_some [] = refl
  present_some (v ∷ vs) = ap (◌∷◌ v) (present_some vs)

  addresses :
      (d : ProposedData) (votes : List (PubKey × Vote))
      → All (λ entry. IsRecorded vals vs d entry.0 entry.1) votes
      → map address_of (get_all_votes votes) ≡ keys votes
  addresses d [] h = refl
  addresses d ((k, v) ∷ votes) h = ground (arith, h.0.same_voter, addresses d votes h.1)

  quorum_nonempty : (d : ProposedData) → HasQuorum vals members vs d → (entry_of vs d).votes ≢ []
  unfolding tally lookup
  quorum_nonempty d q empty = omega (
    arith,
    weight-none (power_of vals) members,
    weight-cong (power_of vals) (voted vs d) (λ a. false) members
        (λ a. rw (get_vote-entry_of vs d a, empty)),
  )

  agree :
      (d : ProposedData) (commit : Commit) (height round : ℤ) (votes : List (PubKey × Vote))
      → height ≡ vs.height
      → round ≡ vs.round
      → commit.prev ≡ vs.base
      → commit.proposed_data ≡ d
      → vs.type_ ≡ precommit_type
      → All (λ entry. IsRecorded vals vs d entry.0 entry.1) votes
      → All (Agrees commit height round) (get_all_votes votes)
  agree d commit height round [] eh er b p t h = tt
  agree d commit height round ((k, v) ∷ votes) eh er b p t h =
      (ground arith, agree d commit height round votes eh er b p t h.1)

  majority-IsRecorded :
      (votes : List (PubKey × Vote))
      → (entry_of vs vs.maj23).votes ≡ votes
      → All (λ entry. IsRecorded vals vs vs.maj23 entry.0 entry.1) votes
  majority-IsRecorded votes e = entry-IsRecorded vs.maj23 votes (
      subst (λ l. All (Stored (entry_of vs vs.maj23).votes) l) e
        (All-Stored (entry_of vs vs.maj23).votes (tidy vs.maj23)))

  -- The commit that `MakeCommit` puts together, timed and signed.
  signed : Vote → List (PubKey × Vote) → ℕ → Commit
  signed v rest time = sign_commit vals (record {
    proposed_data = vs.maj23;
    prev = v.prev;
    precommits = map some (v ∷ get_all_votes rest);
    commit_time = time;
    address = 0;
    signature = [];
  })

  signed-IsWellFormed :
      (k : PubKey) (v : Vote) (rest : List (PubKey × Vote)) (time : ℕ)
      → vs.type_ ≡ precommit_type
      → vs.maj23 ≢ nil_data
      → vals.priv_val.pub_key ≢ 0
      → ((digest : List ℕ) → vals.priv_val.sign digest ≢ [])
      → (entry_of vs vs.maj23).votes ≡ (k, v) ∷ rest
      → IsWellFormed (signed v rest time)
  unfolding signed sign_commit commit_height commit_round
  signed-IsWellFormed k v rest time t n key sig e =
      let votes = majority-IsRecorded ((k, v) ∷ rest) e in
      record {
        not_nil = n;
        some_precommit = λ c. cc;
        all_agree = rw (present_some (get_all_votes rest)) (
            agree vs.maj23 (signed v rest time) v.height v.round ((k, v) ∷ rest) votes.0.same_height
              votes.0.same_round votes.0.same_base refl t votes);
        one_each = rw (present_some (get_all_votes rest)) (
            subst (λ l. Distinct l) (sym (addresses vs.maj23 ((k, v) ∷ rest) votes))
              (subst (λ l. Distinct (keys l)) e (tidy vs.maj23)));
        has_address = key;
        has_signature = sig _;
      }

  make_commit-entry :
      vs.maj23 ≢ nil_data
      → make_commit vs ≡ commit_of vs.maj23 (get_all_votes (entry_of vs vs.maj23).votes)
  unfolding make_commit commit_of
  make_commit-entry n = elim (Option-cases (lookup vs.maj23 vs.votes_by_proposed_data)) [
    | inl e ↦ rw e (ground arith)
    | inr (pd, e) ↦ rw e (ground arith)
  ]

  commit_from :
      (votes : List (PubKey × Vote))
      → (entry_of vs vs.maj23).votes ≡ votes
      → vs.type_ ≡ precommit_type
      → vs.maj23 ≢ nil_data
      → vals.priv_val.pub_key ≢ 0
      → ((digest : List ℕ) → vals.priv_val.sign digest ≢ [])
      → (commit : Commit) × (make_commit vs ≡ done commit)
        × (commit.proposed_data ≡ vs.maj23)
        × (commit.prev ≡ vs.base)
        × (commit.precommits ≡ map some (get_all_votes (entry_of vs vs.maj23).votes))
        × ((time : ℕ)
            → validate_commit (sign_commit vals (record commit { commit_time = time })) ≡ none)
  unfolding signed commit_of
  commit_from [] e t n key sig = absurd (quorum_nonempty vs.maj23 (valid.sound n) e)
  commit_from ((k, v) ∷ rest) e t n key sig = (
    record {
      proposed_data = vs.maj23;
      prev = v.prev;
      precommits = map some (v ∷ get_all_votes rest);
      commit_time = 0;
      address = 0;
      signature = [];
    },
    make_commit-entry n ∙ ap (λ l. commit_of vs.maj23 (get_all_votes l)) e,
    refl,
    (majority-IsRecorded ((k, v) ∷ rest) e).0.same_base,
    ap (λ l. map some (get_all_votes l)) (sym e),
    λ time. (validate_commit_iff _).1 (signed-IsWellFormed k v rest time t n key sig e),
  )

  -- A valid set of precommits with a majority makes a commit: `MakeCommit` does not panic, the
  -- commit is for the majority's data on the base of the set, it holds all the precommits for that
  -- data and no others, each once, and once the node has signed it, with a key and signatures that
  -- are not empty, `ValidateBasic` accepts it, whatever its time.
  pub make_commit_valid :
      vs.type_ ≡ precommit_type
      → vs.maj23 ≢ nil_data
      → vals.priv_val.pub_key ≢ 0
      → ((digest : List ℕ) → vals.priv_val.sign digest ≢ [])
      → (commit : Commit) × (make_commit vs ≡ done commit)
        × (commit.proposed_data ≡ vs.maj23)
        × (commit.prev ≡ vs.base)
        × (commit.precommits ≡ map some (get_all_votes (entry_of vs vs.maj23).votes))
        × ((time : ℕ)
            → validate_commit (sign_commit vals (record commit { commit_time = time })) ≡ none)
  make_commit_valid = commit_from (entry_of vs vs.maj23).votes refl
