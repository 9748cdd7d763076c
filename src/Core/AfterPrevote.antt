-- ===== src/Core/AfterPrevote.antt =====
-- What follows an added prevote (`addVote` in bftcore.go) and leaves the lock as it is.
use gobft.Base.{
  ◌≡◌, refl, ◌∙◌, subst, inl, inr, ℤ, pos, ltb_ℤ, ◌==ℤ◌, ==ℤ_iff, leb, ltb, int64, ◌+ℤ◌, Bool, true,
  false, ◌&&◌, is_some, Option, some, done, done_injective, deref, >>=-eq-done, sane-eq-done,
  if◌then◌else◌, arith, Bool-cases,
}
use gobft.Message.{ProposedData, Vote}
use gobft.VoteSet.{VoteSet, two_thirds_majority, has_two_thirds_any}
use gobft.HeightVoteSet.{HeightVoteSet, set_round}
use gobft.Core.State.{
  Core, Env, validators_of, is_behind, propose_step, prevote_step, prevote_wait, update_round_step,
  schedule_timeout,
}
use gobft.Core.Enter.{
  is_stale_round, reset_round, advance_round, enter_new_round, enter_propose, enter_prevote,
  start_prevote_wait, enter_prevote_wait,
}
use gobft.Core.Precommit.{enter_precommit}
use gobft.Core.Votes.{after_prevote}
use gobft.Core.Rounds.{enter_prevote-SameHeight, enter_propose-SameHeight}

abbrev pub SameLock : Core → Core → Type 0
SameLock c c' = (c'.locked_round ≡ c.locked_round) × (c'.locked_proposal ≡ c.locked_proposal)

proposed-SameLock :
    (env : Env) (c : Core) (height round : ℤ) → SameLock c (enter_propose env c height round)
unfolding enter_propose
proposed-SameLock env c height round = elim (Bool-cases (is_behind c height round propose_step)) [
  | inl e ↦ rw e (refl, refl)
  | inr e ↦
      let s = (enter_propose-SameHeight env c height round e).0 in
      (s.locked_round, s.locked_proposal)
]

reset-SameLock :
    (c : Core) (round : ℤ) (votes : Option HeightVoteSet)
    → SameLock c (record (reset_round c round) { votes = votes })
unfolding update_round_step
reset-SameLock c round votes = ground arith

new_round-SameLock :
    (env : Env) (c c' : Core) (height round : ℤ)
    → enter_new_round env c height round ≡ done c'
    → SameLock c c'
unfolding enter_new_round advance_round
new_round-SameLock env c c' height round run = elim (Bool-cases (is_stale_round c height round)) [
  | inl e ↦ subst (SameLock c) (done_injective (rw e at run)) (refl, refl)
  | inr e ↦
      let goes : advance_round env c height round ≡ done c' = rw e at run in
      let (votes, v, goes1) = >>=-eq-done (deref c.votes) _ goes in
      let (votes', v', ends) = >>=-eq-done (set_round votes (int64 (round +ℤ pos 1))) _ goes1 in
      let c1 : Core = record (reset_round c round) { votes = some votes' } in
      let (r, p) = reset-SameLock c round (some votes') in
      let (r', p') = proposed-SameLock env c1 height round in
      subst (SameLock c) (done_injective ends) (r' ∙ r, p' ∙ p)
]

waits-SameLock :
    (env : Env) (c c' : Core) (height round : ℤ)
    → enter_prevote_wait env c height round ≡ done c'
    → SameLock c c'
unfolding enter_prevote_wait start_prevote_wait update_round_step schedule_timeout
waits-SameLock env c c' height round run =
    elim (Bool-cases (is_behind c height round prevote_wait)) [
      | inl e ↦ subst (SameLock c) (done_injective (rw e at run)) (refl, refl)
      | inr e ↦
          let goes : start_prevote_wait env c height round ≡ done c' = rw e at run in
          let (votes, v, goes1) = >>=-eq-done (deref c.votes) _ goes in
          let (any, ends) = sane-eq-done _ _ goes1 in
          subst (SameLock c) (done_injective ends) (refl, refl)
    ]

-- What follows an added prevote leaves the lock, unless it is `enterPrecommit` in the vote's round, which
-- is the core's, on a majority of its prevotes.
pub data AfterIt (env : Env) (c c' : Core) (vote : Vote) (polka : ProposedData × Bool)
    : Type 0 where
  left : SameLock c c' → AfterIt env c c' vote polka
  precommitted :
      c.round ≡ vote.round
      → polka.1 ≡ true
      → enter_precommit env c c.height vote.round ≡ done c'
      → AfterIt env c c' vote polka

in_round_cases :
    (env : Env) (c c' : Core) (vote : Vote) (any has : Bool) (polka : ProposedData × Bool)
    → c.round ≡ vote.round
    → polka.1 ≡ has
    → (if has
        then enter_precommit env c c.height vote.round
        else if any
        then enter_prevote_wait env c c.height vote.round
        else done c)
      ≡ done c'
    → AfterIt env c c' vote polka
in_round_cases env c c' vote any true polka at has run = precommitted at has run
in_round_cases env c c' vote true false polka at has run =
    left (waits-SameLock env c c' c.height vote.round run)
in_round_cases env c c' vote false false polka at has run =
    left (subst (SameLock c) (done_injective run) (refl, refl))

early_cases :
    (env : Env) (c c' : Core) (early has : Bool)
    → (if early
        then (if has then done (enter_prevote env c c.height c.round) else done c)
        else done c)
      ≡ done c'
    → SameLock c c'
early_cases env c c' true true run =
    let s = enter_prevote-SameHeight env c c.height c.round in
    subst (SameLock c) (done_injective run) (s.locked_round, s.locked_proposal)
early_cases env c c' true false run = subst (SameLock c) (done_injective run) (refl, refl)
early_cases env c c' false has run = subst (SameLock c) (done_injective run) (refl, refl)

pub after_prevote-AfterIt :
    (env : Env) (c c' : Core) (vote : Vote) (prevotes : Option VoteSet)
    → after_prevote env c vote prevotes ≡ done c'
    → AfterIt env c c' vote (two_thirds_majority prevotes)
unfolding after_prevote
after_prevote-AfterIt env c c' vote prevotes run =
    let any = has_two_thirds_any (validators_of env c) prevotes in
    elim (Bool-cases (ltb_ℤ c.round vote.round && any)) [
      | inl e ↦ left (new_round-SameLock env c c' c.height vote.round (rw e at run))
      | inr e ↦ elim (Bool-cases (c.round ==ℤ vote.round && leb prevote_step c.step)) [
        | inl h ↦
            in_round_cases env c c' vote any (two_thirds_majority prevotes).1
              (two_thirds_majority prevotes) ((==ℤ_iff c.round vote.round).0 (ground (arith, h)))
              refl (rw (e, h) at run)
        | inr h ↦
            left (
              early_cases env c c' (ltb c.step prevote_step) (is_some c.proposal)
                (rw (e, h) at run))
      ]
    ]
