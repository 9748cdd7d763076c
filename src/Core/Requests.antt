-- ===== src/Core/Requests.antt =====
-- The answer to a request for votes (bftcore.go), in a sound core.
use gobft.Base.{
  ℕ, ◌≡◌, refl, sym, ap, ap₂, ◌∙◌, inl, inr, ℤ, pos, negsuc, ltb_ℤ, leb_ℤ, ◌==ℤ◌, ◌&&◌, Bool, true,
  false, is_some, Option, none, some, List, [], ◌∷◌, ◌==◌, Outcome, done, panic, deref, >>=-run,
  if◌then◌else◌, arith, All, lookup, Bool-cases, Option-cases, int_key, nat_key, All-append,
}
use gobft.Message.{
  PubKey, ProposedData, Vote, Commit, fetch_rsp_msg, FetchVotesReq, FetchVotesRsp, prevote_type,
  precommit_type,
}
use gobft.Message.Digest.{Hashing, fetch_rsp_digest, write_digests}
use gobft.Message.Validate.{validate_fetch_req}
use gobft.Committee.{Validators, sign_fetch_rsp}
use gobft.VoteSet.{VoteSet, ProposedDataVotes}
use gobft.VoteSet.Missing.{cache_of, missing_in, missing_votes_of, make_fetch_votes_rsp}
use gobft.HeightVoteSet.{RoundVoteSet}
use gobft.HeightVoteSet.Polkas.{prevotes_of-some, precommits_of-some}
use gobft.Core.State.{Core, Env, committee_of, validators_of, emit, send}
use gobft.Core.Messages.{
  send_response, respond_from, respond_history, respond_current, handle_fetch,
}
use gobft.Core.Within.{not_before_refl, IsSound, Stays}
use gobft.Core.Prevotes.{kept-Stays}

-- No vote of the list is nil.
abbrev pub HasNoNil : List (Option Vote) → Type 0
HasNoNil vs = All (λ v. is_some v ≡ true) vs

digests_of :
    (h : Hashing) (vs : List (Option Vote)) → HasNoNil vs → is_some (write_digests h vs) ≡ true
unfolding write_digests
digests_of h [] e = refl
digests_of h (none ∷ vs) e = cc
digests_of h (some v ∷ vs) e = ground (arith, digests_of h vs e.1)

signed_rsp :
    (vals : Validators) (rsp : FetchVotesRsp)
    → HasNoNil rsp.missing_votes
    → is_some (sign_fetch_rsp vals rsp) ≡ true
unfolding sign_fetch_rsp fetch_rsp_digest
signed_rsp vals rsp e = ground (arith, digests_of vals.hashing rsp.missing_votes e)

missing_in-HasNoNil :
    (cache : List (PubKey × Bool)) (votes : List (PubKey × Vote))
    → HasNoNil (missing_in cache votes)
unfolding missing_in
missing_in-HasNoNil cache [] = tt
missing_in-HasNoNil cache ((k, v) ∷ votes) = elim (Bool-cases (is_some (lookup k cache))) [
  | inl e ↦ rw e (missing_in-HasNoNil cache votes)
  | inr e ↦ rw e (refl, missing_in-HasNoNil cache votes)
]

missing_votes_of-HasNoNil :
    (cache : List (PubKey × Bool)) (m : List (ProposedData × ProposedDataVotes))
    → HasNoNil (missing_votes_of cache m)
unfolding missing_votes_of
missing_votes_of-HasNoNil cache [] = tt
missing_votes_of-HasNoNil cache ((d, pd) ∷ m) =
    All-append _ (missing_in cache pd.votes) (missing_votes_of cache m)
      (missing_in-HasNoNil cache pd.votes) (missing_votes_of-HasNoNil cache m)

make_fetch_votes_rsp-HasNoNil :
    (now : ℕ) (vs : VoteSet) (req : FetchVotesReq)
    → HasNoNil (make_fetch_votes_rsp now vs req).missing_votes
unfolding make_fetch_votes_rsp
make_fetch_votes_rsp-HasNoNil now vs req =
    missing_votes_of-HasNoNil (cache_of req.voters) vs.votes_by_proposed_data

real_number : (r : ℤ) → leb_ℤ (pos 0) r ≡ true → (k : ℕ) × (r ≡ pos k)
real_number (pos k) h = (k, refl)
real_number (negsuc k) h = absurd (ground (arith, h))

-- The application's commits hold no nil vote.
abbrev pub HasWholeHistory : Env → Core → Type 0
HasWholeHistory env c =
    (height : ℤ) (commit : Commit)
    → (committee_of env c).get_commit_history height ≡ some commit
    → HasNoNil commit.precommits

module _ (env : Env) (members : List PubKey) {c : Core} (s : IsSound env members c)
    (req : FetchVotesReq) (peer : Option ℕ) where
  abbrev Returns : Outcome Core → Type 0
  Returns call = (c' : Core) × (call ≡ done c') × Stays env members c c'

  unchanged : Returns (done c)
  unchanged =
      (c, refl, record { sound = s; height = refl; later = not_before_refl c; committed = refl })

  send_response-Returns :
      (rsp : FetchVotesRsp) → HasNoNil rsp.missing_votes → Returns (send_response env c rsp peer)
  unfolding send_response
  send_response-Returns rsp whole = elim (Option-cases (sign_fetch_rsp (validators_of env c) rsp)) [
    | inl e ↦ absurd (ground (arith, e, signed_rsp (validators_of env c) rsp whole))
    | inr (signed, e) ↦ (
      emit c (send (fetch_rsp_msg signed) peer),
      ap (λ o. elim o [ none ↦ panic | some r ↦ done (emit c (send (fetch_rsp_msg r) peer)) ]) e,
      kept-Stays s (record {
        votes = refl;
        height = refl;
        round = refl;
        step = refl;
        committed = refl;
        whole = λ w. w;
      }),
    )
  ]

  respond_from-Returns :
      (vs : VoteSet) {found : Option VoteSet}
      → found ≡ some vs
      → Returns (respond_from env c req peer found)
  respond_from-Returns vs e =
      let (c', run, st) =
        send_response-Returns (make_fetch_votes_rsp env.now vs req)
          (make_fetch_votes_rsp-HasNoNil env.now vs req) in
      (c', >>=-run (deref _) _ (ap deref e) ∙ run, st)

  history-Returns :
      HasWholeHistory env c
      → (found : Option Commit) → (committee_of env c).get_commit_history req.height ≡ found
      → Returns (respond_history env c req peer found)
  history-Returns whole none e = unchanged
  history-Returns whole (some commit) e = send_response-Returns _ (whole req.height commit e)

  current-Returns :
      (rvs : RoundVoteSet)
      → lookup req.round s.votes.round_vote_sets ≡ some rvs
      → Returns (respond_current env c req peer s.votes)
  current-Returns rvs e = elim (Bool-cases (req.type_ == prevote_type)) [
    | inl t ↦ rw t (respond_from-Returns rvs.prevotes (prevotes_of-some s.votes req.round rvs e))
    | inr t ↦ elim (Bool-cases (req.type_ == precommit_type)) [
      | inl t' ↦
          rw (t, t')
            (respond_from-Returns rvs.precommits (precommits_of-some s.votes req.round rvs e))
      | inr t' ↦ rw (t, t') unchanged
    ]
  ]

  -- The round of a request that is not after the core's is tracked.
  found_round :
      leb_ℤ (pos 0) req.round ≡ true
      → leb_ℤ req.round c.round ≡ true
      → (rvs : RoundVoteSet) × (lookup req.round s.votes.round_vote_sets ≡ some rvs)
  found_round real le =
      let (k, at) = real_number req.round real in
      let near : leb_ℤ (pos k) (pos s.n) ≡ true = ap₂ leb_ℤ (sym at) (sym s.within.in_round) ∙ le in
      let (rvs, e) = s.within.tracks.present k (ground (arith, near, s.within.one_ahead)) in
      (rvs, ap (λ r. lookup r s.votes.round_vote_sets) at ∙ e)

  if-Returns :
      (b : Bool) {call call' : Outcome Core}
      → (b ≡ true → Returns call)
      → (b ≡ false → Returns call')
      → Returns (if b then call else call')
  if-Returns true yes_case no_case = yes_case refl
  if-Returns false yes_case no_case = no_case refl

  -- A request is answered or passed over.
  pub handle_fetch-Stays :
      ((req.height ==ℤ c.height) ≡ true → leb_ℤ (pos 0) req.round ≡ true)
      → HasWholeHistory env c
      → (c' : Core) × (handle_fetch env c req peer ≡ done c') × Stays env members c c'
  unfolding handle_fetch
  handle_fetch-Stays real whole =
      if-Returns (is_some (validate_fetch_req req)) (λ e. unchanged)
        λ e1.
          if-Returns (ltb_ℤ req.height c.height)
            (λ e. history-Returns whole ((committee_of env c).get_commit_history req.height) refl)
            λ e2.
              if-Returns (req.height ==ℤ c.height && leb_ℤ req.round c.round)
                (λ e.
                  let (rvs, found) = found_round (real (ground (arith, e))) (ground (arith, e)) in
                  let (c', run, st) = current-Returns rvs found in
                  (c', >>=-run (deref c.votes) _ (ap deref s.within.has_votes) ∙ run, st))
                (λ e. unchanged)
