-- ===== src/VoteSet/Preservation.antt =====
-- An accepted vote keeps the invariant of a vote set (vote_set.go).
use gobft.Base.{
  ◌+◌, ◌*◌, ◌/◌, ◌≤◌, ◌<◌, ◌≡◌, refl, sym, ap, ◌∙◌, ◌≢◌, ◌⊎◌, inl, inr, pos, int64_add, true, false,
  ◌&&◌, ◌||◌, some, List, ◌==◌, ==_iff, if◌then◌else◌, nat_key, ltb, leb, ltb_ℤ, leb_ℤ, arith,
  Bool-cases,
}
use gobft.Message.{PubKey, ProposedData, nil_data, Vote}
use gobft.Committee.{Validators, verify_signature, get_voting_power}
use gobft.Weights.{IsCommittee, power_of, elem, weight-cong, weight-insert}
use gobft.VoteSet.{VoteSet, ProposedDataVotes, get_vote, pd_add_vote, add_verified_vote, quorum}
use gobft.VoteSet.Outcomes.{
  next, entry_of, IsAcceptable, get_vote-next, get_vote-entry_of, entry_of-next,
}
use gobft.VoteSet.Invariant.{
  voted, tally, total, HasQuorum, IsRecorded, IsValid, total_small, tally-le-total, quorum_eq,
}

module _ (vals : Validators) (members : List PubKey) (comm : IsCommittee vals members) where
  -- Who is not a validator signs nothing that verifies.
  verified-elem :
      (vote : Vote) → verify_signature vals vote ≡ true → elem vote.address members ≡ true
  unfolding verify_signature
  verified-elem vote h = elim (Bool-cases (elem vote.address members)) [
    | inl e ↦ e
    | inr e ↦ ground (arith, comm.complete vote.address e)
  ]

  module _ (vs : VoteSet) (vote : Vote) (ok : IsAcceptable vals vs vote) where
    pub tally-next_other :
        (d : ProposedData)
        → (vote.proposed == d) ≡ false
        → tally vals members (next vals vs vote) d ≡ tally vals members vs d
    unfolding tally
    tally-next_other d h =
        weight-cong (power_of vals) (voted (next vals vs vote) d) (voted vs d) members
          (λ a. rw (get_vote-next vals vs vote d a ok.unseen, h))

    voted-next_same :
        (a : PubKey)
        → voted (next vals vs vote) vote.proposed a
          ≡ (a == vote.address || voted vs vote.proposed a)
    voted-next_same a =
        rw
          (
            get_vote-next vals vs vote vote.proposed a ok.unseen,
            (==_iff vote.proposed vote.proposed).1 refl,
          )
          (ground arith)

    pub tally-next_same :
        tally vals members (next vals vs vote) vote.proposed
        ≡ power_of vals vote.address + tally vals members vs vote.proposed
    unfolding tally
    tally-next_same =
        weight-insert (power_of vals) (voted vs vote.proposed)
          (voted (next vals vs vote) vote.proposed) vote.address members voted-next_same
          (rw ok.unseen) comm.distinct (verified-elem vote ok.verified)

    after : ProposedDataVotes
    after = pd_add_vote (entry_of vs vote.proposed) vote (get_voting_power vals vote.address)

    after_sum :
        IsValid vals members vs
        → after.sum ≡ pos (tally vals members (next vals vs vote) vote.proposed)
    unfolding pd_add_vote after
    after_sum valid =
        rw
          (
            sym (get_vote-entry_of vs vote.proposed vote.address) ∙ ok.unseen,
            comm.powers vote.address,
            valid.sums vote.proposed,
            tally-next_same,
          )
          (int64_add (tally vals members vs vote.proposed) (power_of vals vote.address) (
              omega (
                arith,
                tally-next_same,
                tally-le-total vals members comm (next vals vs vote) vote.proposed,
                total_small vals members comm,
              ))
            ∙ ap pos (omega arith))

    sums-next :
        IsValid vals members vs
        → (d : ProposedData)
        → (entry_of (next vals vs vote) d).sum ≡ pos (tally vals members (next vals vs vote) d)
    unfolding after
    sums-next valid d = rw (entry_of-next vals vs vote d) (elim (Bool-cases (vote.proposed == d)) [
      | inl hit ↦ rw (hit, ← (==_iff vote.proposed d).0 hit) (after_sum valid)
      | inr miss ↦ rw miss (valid.sums d ∙ ap pos (sym (tally-next_other d miss)))
    ])

    maj23_test : (next vals vs vote).maj23 ≡ (
        if (ltb_ℤ (entry_of vs vote.proposed).sum (quorum vals) && leb_ℤ (quorum vals) after.sum)
          && vs.maj23 == nil_data
        then vote.proposed
        else vs.maj23)
    unfolding add_verified_vote after
    maj23_test = refl

    -- The threshold test of `addVerifiedVote`, by the tallies.
    maj23-next :
        IsValid vals members vs
        → (next vals vs vote).maj23 ≡ (
            if (ltb (tally vals members vs vote.proposed) (2 * total vals members / 3 + 1)
                && leb
                    (2 * total vals members / 3 + 1)
                    (tally vals members (next vals vs vote) vote.proposed))
              && vs.maj23 == nil_data
            then vote.proposed
            else vs.maj23)
    maj23-next valid =
        rw (maj23_test, quorum_eq vals members comm, valid.sums vote.proposed, after_sum valid)
          (ground arith)

    maj23-cases :
        IsValid vals members vs
        → (((next vals vs vote).maj23 ≡ vs.maj23)
            × (vs.maj23 ≡ nil_data
                → ¬ (
                    (tally vals members vs vote.proposed < 2 * total vals members / 3 + 1)
                    × (2 * total vals members / 3 + 1
                        ≤ tally vals members (next vals vs vote) vote.proposed))))
          ⊎ (((next vals vs vote).maj23 ≡ vote.proposed)
              × ((vs.maj23 ≡ nil_data)
                  × (tally vals members vs vote.proposed < 2 * total vals members / 3 + 1)
                  × (2 * total vals members / 3 + 1
                      ≤ tally vals members (next vals vs vote) vote.proposed)))
    maj23-cases valid = ground (arith, maj23-next valid)

    pub tally-le-next :
        (d : ProposedData) → tally vals members vs d ≤ tally vals members (next vals vs vote) d
    tally-le-next d = elim (Bool-cases (vote.proposed == d)) [
      | inl hit ↦ rw (← (==_iff vote.proposed d).0 hit) (omega (arith, tally-next_same))
      | inr miss ↦ omega (arith, tally-next_other d miss)
    ]

    sound-next :
        IsValid vals members vs
        → (next vals vs vote).maj23 ≢ nil_data
        → HasQuorum vals members (next vals vs vote) (next vals vs vote).maj23
    sound-next valid h = elim (maj23-cases valid) [
      | inl (e, kept) ↦ rw e (omega (arith, valid.sound (λ n. h (e ∙ n)), tally-le-next vs.maj23))
      | inr (e, (was, low, high)) ↦ rw e (omega arith)
    ]

    found-next :
        IsValid vals members vs
        → (d : ProposedData) → d ≢ nil_data
        → HasQuorum vals members (next vals vs vote) d
        → (next vals vs vote).maj23 ≢ nil_data
    found-next valid d h q n = elim (maj23-cases valid) [
      | inl (e, kept) ↦ elim (Bool-cases (vote.proposed == d)) [
        | inl hit ↦
            let same : vote.proposed ≡ d = (==_iff vote.proposed d).0 hit in
            let old : ¬ HasQuorum vals members vs d = λ o. valid.found d h o (sym e ∙ n) in
            kept (sym e ∙ n) (
              omega (arith, ap (tally vals members vs) same),
              omega (arith, ap (tally vals members (next vals vs vote)) same),
            )
        | inr miss ↦ valid.found d h (omega (arith, tally-next_other d miss)) (sym e ∙ n)
      ]
      | inr (e, (was, low, high)) ↦ elim (Bool-cases (vote.proposed == d)) [
        | inl hit ↦ h (sym ((==_iff vote.proposed d).0 hit) ∙ (sym e ∙ n))
        | inr miss ↦ valid.found d h (omega (arith, tally-next_other d miss)) was
      ]
    ]

    IsRecorded-next :
        IsValid vals members vs
        → (d : ProposedData) (a : PubKey) (v : Vote) → get_vote (next vals vs vote) d a ≡ some v
        → IsRecorded vals (next vals vs vote) d a v
    unfolding add_verified_vote
    IsRecorded-next valid d a v h =
        ground (arith, get_vote-next vals vs vote d a ok.unseen, valid.recorded d a v)

    -- An accepted vote keeps the invariant.
    pub next-IsValid : IsValid vals members vs → IsValid vals members (next vals vs vote)
    next-IsValid valid = record {
      recorded = IsRecorded-next valid;
      sums = sums-next valid;
      sound = sound-next valid;
      found = found-next valid;
    }
