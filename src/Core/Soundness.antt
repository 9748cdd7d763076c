-- ===== src/Core/Soundness.antt =====
-- `addVote` (bftcore.go): no vote makes a sound core panic.
use gobft.Base.{
  ℕ, ◌+◌, ◌≤◌, ◌<◌, ◌≡◌, refl, sym, ap, ap₂, ◌∙◌, subst, ◌⊎◌, inl, inr, ℤ, pos, negsuc, ◌+ℤ◌, int64,
  int64_add, ltb_ℤ, ◌==ℤ◌, Bool, true, false, not, ◌&&◌, ◌||◌, Option, none, some, List, Outcome,
  done, deref, ◌>>=◌, >>=-run, if◌then◌else◌, arith, Bool-cases, Option-cases, ◌==◌, ==_iff,
}
use gobft.Errors.{VoteError, height_mismatch, invalid_vote_type, invalid_round}
use gobft.Message.{
  PubKey, Vote, VoteType, proposal_type, prevote_type, precommit_type, is_vote_type_valid,
}
use gobft.Config.{watermark}
use gobft.Weights.{IsCommittee}
use gobft.VoteSet.{VoteSet, add_vote, has_all}
use gobft.VoteSet.Outcomes.{add_known_vote_outcome}
use gobft.HeightVoteSet.{hvs_add_vote}
use gobft.HeightVoteSet.Adding.{IsVoteType}
use gobft.Core.State.{Core, Env, validators_of, new_height}
use gobft.Core.Enter.{enter_new_round, enter_prevote}
use gobft.Core.Votes.{
  Added, default_set_proposal, add_last_precommit, add_straggler, add_current, core_add_vote,
}
use gobft.Core.Within.{not_before_refl, in_same_round, IsWithin, IsSound, Stays}
use gobft.Core.Proposals.{default_set_proposal-IsFit}
use gobft.Core.Prevotes.{kept-IsWithin, kept-Stays}
use gobft.Core.Transitions.{enter_prevote-Within}
use gobft.Core.Precommits.{skip_timeout}
use gobft.Core.Adding.{HasRoom, add_current-Proceeds}
use gobft.Core.NextSound.{IsWorking, Proceeds}

-- A call that returns, and leaves a core that stays in its height or decides it.
abbrev pub Answers : Env → List PubKey → Core → Outcome Added → Type 0
Answers env members c call =
    (c' : Core) × (added : Bool) × (e : Option VoteError) × (call ≡ done (c', added, e))
    × Proceeds env members c c'

pub real_round : (r : ℤ) → ltb_ℤ r (pos 0) ≡ false → (k : ℕ) × (r ≡ pos k)
real_round (pos k) h = (k, refl)
real_round (negsuc k) h = absurd (ground (arith, h))

pub within_watermark :
    (n k : ℕ) {r : ℤ}
    → n < 9223372036854775000
    → ltb_ℤ (int64 (pos n +ℤ watermark)) r ≡ false
    → r ≡ pos k
    → k ≤ n + 300
within_watermark n k {r} fits near at =
    let far : ltb_ℤ (pos (n + 300)) (pos k) ≡ false =
      ap₂ ltb_ℤ (sym (int64_add n 300 (omega arith))) (sym at) ∙ near in
    ground (arith, far)

type_cases :
    (t : VoteType)
    → (t == proposal_type) ≡ false
    → IsVoteType t ⊎ (not (is_vote_type_valid t) ≡ true)
unfolding is_vote_type_valid
type_cases t no_proposal = elim (Bool-cases (t == prevote_type)) [
  | inl e ↦ inl (inl ((==_iff t prevote_type).0 e))
  | inr e ↦ elim (Bool-cases (t == precommit_type)) [
    | inl f ↦ inl (inr ((==_iff t precommit_type).0 f))
    | inr f ↦ inr (ground (arith, e, f, no_proposal))
  ]
]

module _ (env : Env) (members : List PubKey) {c : Core} (s : IsSound env members c)
    (vote : Vote) where
  abbrev with_last : VoteSet → Core
  with_last last = record c { last_commit = some last }

  with_last-Stays : (last : VoteSet) → Stays env members c (with_last last)
  with_last-Stays last = kept-Stays s (record {
    votes = refl;
    height = refl;
    round = refl;
    step = refl;
    committed = refl;
    whole = λ w. w;
  })

  unchanged : (added : Bool) (e : Option VoteError) → Answers env members c (done (c, added, e))
  unchanged added e = (
    c,
    added,
    e,
    refl,
    Proceeds.stayed
        (record { sound = s; height = refl; later = not_before_refl c; committed = refl }),
  )

  -- What `addVote` returns for the last precommits.
  last_vote :
      (last : VoteSet)
      → (last' : VoteSet) × (added : Bool) × (e : Option VoteError) × (add_vote
            (validators_of env c)
            (some last)
            (some vote)
          ≡ done (last', added, e))
  unfolding add_vote
  last_vote last = elim (add_known_vote_outcome (validators_of env c) last vote) [
    | inl (ok, run) ↦ (_, true, none, run)
    | inr (e, bad, run) ↦ (last, false, some e, run)
  ]

  after_last :
      (last : VoteSet) (added : Bool) (e : Option VoteError) (skips : Bool)
      → let c' = with_last last in
        Answers env members c (
          if not added
          then done (c', added, e)
          else if skips
          then enter_new_round env c' c'.height (pos 0) >>= (λ c''. done (c'', added, e))
          else done (c', added, e))
  after_last last false e skips =
      (with_last last, false, e, refl, Proceeds.stayed (with_last-Stays last))
  after_last last true e false =
      (with_last last, true, e, refl, Proceeds.stayed (with_last-Stays last))
  after_last last true e true =
      let c' = with_last last in
      let (c'', run, p) =
        skip_timeout env members c c' true (Proceeds.stayed (with_last-Stays last)) in
      (c'', true, e, >>=-run (enter_new_round env c' c'.height (pos 0)) _ run, p)

  add_last_precommit-Answers :
      (last : VoteSet) → Answers env members c (add_last_precommit env c vote last)
  unfolding add_last_precommit
  add_last_precommit-Answers last =
      let (last', added, e, run) = last_vote last in
      let (c', a, e', ends, p) =
        after_last last' added e
          (env.cfg.skip_timeout_commit && has_all (validators_of env c) last') in
      (c', a, e', >>=-run (add_vote (validators_of env c) (some last) (some vote)) _ run ∙ ends, p)

  via :
      {call call' : Outcome Added}
      → call ≡ call'
      → Answers env members c call'
      → Answers env members c call
  via e (c', added, x, run, p) = (c', added, x, e ∙ run, p)

  no_last : c.last_commit ≡ none → add_straggler env c vote ≡ done (c, false, some height_mismatch)
  unfolding add_straggler
  no_last e =
      ap
        (λ o. elim o [
          | none ↦ done (c, false, some height_mismatch)
          | some last ↦
              if c.step == new_height && vote.type_ == precommit_type
              then add_last_precommit env c vote last
              else done (c, false, some height_mismatch)
        ])
        e

  has_last :
      (last : VoteSet)
      → c.last_commit ≡ some last
      → add_straggler env c vote ≡ (
          if c.step == new_height && vote.type_ == precommit_type
          then add_last_precommit env c vote last
          else done (c, false, some height_mismatch))
  unfolding add_straggler
  has_last last e =
      ap
        (λ o. elim o [
          | none ↦ done (c, false, some height_mismatch)
          | some last ↦
              if c.step == new_height && vote.type_ == precommit_type
              then add_last_precommit env c vote last
              else done (c, false, some height_mismatch)
        ])
        e

  if-Answers :
      (b : Bool) {call call' : Outcome Added}
      → (b ≡ true → Answers env members c call)
      → (b ≡ false → Answers env members c call')
      → Answers env members c (if b then call else call')
  if-Answers true yes_case no_case = yes_case refl
  if-Answers false yes_case no_case = no_case refl

  add_straggler-Answers : Answers env members c (add_straggler env c vote)
  add_straggler-Answers = elim (Option-cases c.last_commit) [
    | inl e ↦ via (no_last e) (unchanged false (some height_mismatch))
    | inr (last, e) ↦ via (has_last last e) (
        if-Answers (c.step == new_height && vote.type_ == precommit_type)
          (λ late. add_last_precommit-Answers last)
          (λ no_case. unchanged false (some height_mismatch)))
  ]

  prevoted-Stays :
      Stays env members c (enter_prevote env (record c { proposal = some vote }) c.height c.round)
  prevoted-Stays =
      let c1 : Core = record c { proposal = some vote } in
      let w1 : IsWithin env members c1 s.votes s.m s.n =
        kept-IsWithin
          (record {
            votes = refl;
            height = refl;
            round = refl;
            step = refl;
            committed = refl;
            whole = λ w. w;
          })
          s.within in
      let (w, h, co, step) = enter_prevote-Within env members w1 c.height in
      subst (λ r. Stays env members c (enter_prevote env c1 c.height r)) (sym s.within.in_round)
        (record {
          sound = record {
            votes = s.votes;
            m = s.m;
            n = s.n;
            within = w;
            no_polka = s.no_polka;
            counted = s.counted;
          };
          height = h;
          later =
              in_same_round c (enter_prevote env c1 c.height (pos s.n))
                (w.in_round ∙ sym s.within.in_round) step;
          committed = co;
        })

  proposed-Stays : Stays env members c (default_set_proposal env c vote).0
  proposed-Stays = elim (default_set_proposal-IsFit env c vote) [
    | inl (fit, e) ↦
        subst (λ (x : Core × Option VoteError). Stays env members c x.0) (sym e) prevoted-Stays
    | inr (unfit, (x, e)) ↦
        subst (λ (x : Core × Option VoteError). Stays env members c x.0) (sym e)
          (record { sound = s; height = refl; later = not_before_refl c; committed = refl })
  ]

  -- A vote whose type is no vote's is refused.
  no_type :
      not (is_vote_type_valid vote.type_) ≡ true → Answers env members c (add_current env c vote)
  unfolding add_current hvs_add_vote
  no_type e = (
    record c { votes = some s.votes },
    false,
    some invalid_vote_type,
    >>=-run (deref c.votes) _ (ap deref s.within.has_votes) ∙ rw e,
    Proceeds.stayed (
        kept-Stays s (record {
          votes = sym s.within.has_votes;
          height = refl;
          round = refl;
          step = refl;
          committed = refl;
          whole = λ w. w;
        })),
  )

  module _ (comm : IsCommittee (validators_of env c) members) (working : IsWorking env c)
      (fits : s.n < 9223372036854775000) (room : HasRoom env c s.votes vote) where
    -- `addVote` does not panic on any vote that is not nil, in a sound core with a committee as its
    -- interface documents it: it returns, and the core either stays within its height, sound, or it
    -- decides the height, by one commit that `ValidateBasic` accepts, and is sound at a later one.
    -- This holds of a node with a key whose signatures are not empty, of an application that, handed a
    -- commit, is at the core's height or a later one, and as long as 64 bits hold the rounds that the
    -- watermark lets in and the power recorded in the vote's set with the vote's.
    pub core_add_vote-Answers : Answers env members c (core_add_vote env c (some vote))
    unfolding core_add_vote
    core_add_vote-Answers =
        if-Answers (int64 (vote.height +ℤ pos 1) ==ℤ c.height) (λ e. add_straggler-Answers)
          λ e1.
            if-Answers (not (vote.height ==ℤ c.height))
              (λ e. unchanged false (some height_mismatch))
              λ e2.
                if-Answers (vote.type_ == proposal_type)
                  (λ e. (
                    (default_set_proposal env c vote).0,
                    false,
                    (default_set_proposal env c vote).1,
                    refl,
                    Proceeds.stayed proposed-Stays,
                  ))
                  λ e3.
                    if-Answers
                      (ltb_ℤ (int64 (c.round +ℤ watermark)) vote.round || ltb_ℤ vote.round (pos 0))
                      (λ e. unchanged false (some invalid_round))
                      λ e4.
                        let (k, at) = real_round vote.round (ground (arith, e4)) in
                        let near =
                          within_watermark s.n k fits
                            (subst (λ r. ltb_ℤ (int64 (r +ℤ watermark)) vote.round ≡ false)
                              s.within.in_round (ground (arith, e4)))
                            at in
                        elim (type_cases vote.type_ e3) [
                          | inl is ↦
                              add_current-Proceeds env members s comm working vote k at
                                (omega (arith, near)) is room
                          | inr bad ↦ no_type bad
                        ]
