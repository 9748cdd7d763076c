-- ===== src/Core/Unlocking.antt =====
-- The lock after a prevote that `addVote` (bftcore.go) is called with.
use gobft.Base.{
  ℕ, ◌<◌, ◌≡◌, refl, sym, ap, ◌∙◌, subst, ◌⊎◌, inl, inr, ℤ, pos, leb_ℤ, ltb_ℤ, ◌==ℤ◌, ==ℤ_iff,
  int64, ◌+ℤ◌, Bool, true, false, Option, some, List, done, done_injective, deref, ◌>>=◌, >>=-run,
  >>=-eq-done, if◌then◌else◌, arith, Bool-cases,
}
use gobft.Errors.{VoteError}
use gobft.Message.{PubKey, ProposedData, nil_data, Vote, prevote_type}
use gobft.Weights.{IsCommittee}
use gobft.VoteSet.{two_thirds_majority}
use gobft.HeightVoteSet.{HeightVoteSet, prevotes_of, hvs_add_vote}
use gobft.HeightVoteSet.Counted.{hvs_add_vote-Takes}
use gobft.Core.State.{Core, Env, validators_of}
use gobft.Core.Votes.{Added, handle_added, add_current}
use gobft.Core.Within.{IsSound}
use gobft.Core.NextSound.{IsWorking}
use gobft.Core.Voting.{IsLocked}
use gobft.Core.Polka.{still-IsLocked}
use gobft.Core.Adding.{HasRoom, by_prevote, add-cases}
use gobft.Core.LockFate.{LockAfter, kept, handle_prevote-LockAfter}
use gobft.Base.{◌||◌}
use gobft.Errors.{invalid_round}
use gobft.Config.{watermark}
use gobft.Core.Votes.{core_add_vote}
use gobft.Core.Soundness.{real_round, within_watermark}

module _ (env : Env) (members : List PubKey) {c : Core} (s : IsSound env members c)
    (comm : IsCommittee (validators_of env c) members) (working : IsWorking env c) (vote : Vote)
    (k : ℕ) (at : vote.round ≡ pos k) (fits : k < 9223372036854775806)
    (is_prevote : vote.type_ ≡ prevote_type) (room : HasRoom env c s.votes vote) where
  -- The majority that follows a call.
  abbrev pub polka_after : HeightVoteSet → Bool → ProposedData × Bool
  polka_after votes added =
      if added then two_thirds_majority (prevotes_of votes vote.round) else (nil_data, false)

  after_added :
      (added : Bool) (e : Option VoteError) (c1 c' : Core) (votes : HeightVoteSet) (lock_round : ℤ)
      (d : ProposedData)
      → c1.votes ≡ some votes
      → c1.round ≡ c.round
      → IsLocked c1 lock_round d
      → (if added
          then ◌>>=◌ {B = Added} (handle_added env c1 vote votes) (λ c''. done (c'', added, e))
          else done (c1, added, e))
        ≡ done (c', added, e)
      → LockAfter lock_round d c.round vote.round (polka_after votes added) c'
  after_added false e c1 c' votes lock_round d v r l run =
      subst (LockAfter lock_round d c.round vote.round (nil_data, false))
        (ap (λ (x : Added). x.0) (done_injective run)) (kept (λ u. cc (u.0)) l)
  after_added true e c1 c' votes lock_round d v r l run =
      let (c'', handled, ends) = >>=-eq-done (handle_added env c1 vote votes) _ run in
      let real : leb_ℤ (pos 0) vote.round ≡ true = ap (leb_ℤ (pos 0)) at ∙ ground arith in
      subst
        (LockAfter lock_round d c.round vote.round
          (two_thirds_majority (prevotes_of votes vote.round)))
        (ap (λ (x : Added). x.0) (done_injective ends))
        (subst
          (λ x.
            LockAfter lock_round d x vote.round (two_thirds_majority (prevotes_of votes vote.round))
              c'')
          r
          (handle_prevote-LockAfter env c1 c'' vote votes lock_round d v real l
            (sym (by_prevote env c1 vote votes is_prevote) ∙ handled)))

  pub add_current-LockAfter :
      (lock_round : ℤ) (d : ProposedData)
      → IsLocked c lock_round d
      → (c' : Core) × (votes' : HeightVoteSet) × (added : Bool) × (e : Option VoteError)
        × (hvs_add_vote (validators_of env c) s.votes vote ≡ done (votes', added, e))
        × (add_current env c vote ≡ done (c', added, e))
        × LockAfter lock_round d c.round vote.round (polka_after votes' added) c'
  unfolding add_current
  add_current-LockAfter lock_round d l =
      let (votes', added, t) =
        hvs_add_vote-Takes (validators_of env c) members comm s.votes vote (inl is_prevote)
          s.within.valid s.counted room in
      let (c', run, p) =
        add-cases env members s comm working vote k at fits added t (inl is_prevote) in
      let c1 : Core = record c { votes = some votes' } in
      let steps : add_current env c vote ≡ (
          if added
          then ◌>>=◌ {B = Added} (handle_added env c1 vote votes')
              (λ c''. done (c'', added, t.error))
          else done (c1, added, t.error)) =
        >>=-run (deref c.votes) _ (ap deref s.within.has_votes)
        ∙ >>=-run (hvs_add_vote (validators_of env c) s.votes vote) _ t.run in
      let same : IsLocked c1 lock_round d = still-IsLocked c c1 lock_round d refl refl l in
      (
        c',
        votes',
        added,
        t.error,
        t.run,
        run,
        after_added added t.error c1 c' votes' lock_round d refl refl same (sym steps ∙ run),
      )

never_next : (h : ℤ) → (int64 (h +ℤ pos 1) ==ℤ h) ≡ false
unfolding int64 ◌+ℤ◌
never_next h = ground arith

goes_on :
    (env : Env) (c : Core) (vote : Vote)
    → vote.height ≡ c.height
    → vote.type_ ≡ prevote_type
    → core_add_vote env c (some vote) ≡ (
        if ltb_ℤ (int64 (c.round +ℤ watermark)) vote.round || ltb_ℤ vote.round (pos 0)
        then done (c, false, some invalid_round)
        else add_current env c vote)
unfolding core_add_vote
goes_on env c vote same is =
    let past : (int64 (vote.height +ℤ pos 1) ==ℤ c.height) ≡ false =
      ap (λ h. int64 (vote.height +ℤ pos 1) ==ℤ h) (sym same) ∙ never_next vote.height in
    let here : (vote.height ==ℤ c.height) ≡ true = (==ℤ_iff vote.height c.height).1 same in
    rw (past, here, is)

-- A prevote for the core's height, in a sound core that is locked on d. In a round that is negative or
-- past the watermark `addVote` refuses it with an error, and the core is as it was. Otherwise `addVote`
-- does not panic, and the lock changes only on a majority of the prevotes of the vote's round:
-- afterwards, with all that follows the vote done, the lock is as it was; or, on a majority for d in the
-- core's round, it is on d at that round; or, on a majority for other data, which is in a round after the
-- lock's or in the core's, it is given up, or it is on that data, in the core's round. It is not kept on
-- a majority for other data in a round after the lock's. This holds of a committee as its interface
-- documents it, of a node with a key whose signatures are not empty, of an application that, handed a
-- commit, is at the core's height or a later one, and as long as 64 bits hold the rounds that the
-- watermark lets in and the power recorded in the vote's set with the vote's.
pub core_add_vote-LockAfter :
    (env : Env) (members : List PubKey) {c : Core} (s : IsSound env members c) (vote : Vote)
    (lock_round : ℤ) (d : ProposedData)
    → IsCommittee (validators_of env c) members
    → IsWorking env c
    → s.n < 9223372036854775000
    → HasRoom env c s.votes vote
    → vote.height ≡ c.height
    → vote.type_ ≡ prevote_type
    → IsLocked c lock_round d
    → (((ltb_ℤ (int64 (c.round +ℤ watermark)) vote.round || ltb_ℤ vote.round (pos 0)) ≡ true)
        × (core_add_vote env c (some vote) ≡ done (c, false, some invalid_round)))
      ⊎ ((c' : Core) × (votes' : HeightVoteSet) × (added : Bool) × (e : Option VoteError)
          × (hvs_add_vote (validators_of env c) s.votes vote ≡ done (votes', added, e))
          × (core_add_vote env c (some vote) ≡ done (c', added, e))
          × LockAfter lock_round d c.round vote.round
              (if added
                then two_thirds_majority (prevotes_of votes' vote.round)
                else (nil_data, false))
              c')
core_add_vote-LockAfter env members {c} s vote lock_round d comm working fits room same is l =
    elim (Bool-cases
      (ltb_ℤ (int64 (c.round +ℤ watermark)) vote.round || ltb_ℤ vote.round (pos 0))) [
        | inl e ↦ inl (e, goes_on env c vote same is ∙ rw e)
        | inr e ↦
            let (k, at) = real_round vote.round (ground (arith, e)) in
            let near =
              within_watermark s.n k fits
                (subst (λ r. ltb_ℤ (int64 (r +ℤ watermark)) vote.round ≡ false) s.within.in_round
                  (ground (arith, e)))
                at in
            let (c', votes', added, x, taken, run, fate) =
              add_current-LockAfter env members s comm working vote k at (omega (arith, near)) is
                room lock_round d l in
            inr (c', votes', added, x, taken, goes_on env c vote same is ∙ rw e run, fate)
      ]
