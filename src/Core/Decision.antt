-- ===== src/Core/Decision.antt =====
-- The decision of a height (bftcore.go): the commit that is handed over.
use gobft.Base.{
  ◌≡◌, refl, sym, ap, ◌∙◌, subst, ◌≢◌, inl, inr, ℤ, pos, ◌-ℤ◌, ltb_ℤ, leb_ℤ, Bool, true, false,
  none, some, List, [], ◌∷◌, ◌==◌, ==_iff, ℕ, if◌then◌else◌, done, deref, sane, arith, Bool-cases,
  >>=-run, int_key,
}
use gobft.Message.{PubKey, ProposedData, nil_data, precommit_type, Commit, commit_msg}
use gobft.Message.Validate.{validate_commit}
use gobft.Committee.{AppState, sign_commit}
use gobft.VoteSet.{VoteSet, two_thirds_majority, has_two_thirds_majority, make_commit}
use gobft.VoteSet.Evidence.{make_commit_valid}
use gobft.HeightVoteSet.{HeightVoteSet, precommits_of}
use gobft.HeightVoteSet.Rounds.{IsSetFor}
use gobft.Core.State.{
  Core, Env, broadcast, schedule, TimeoutInfo, commit_step, committee_of, validators_of, new_height,
  update_round_step, schedule_timeout,
}
use gobft.Core.Decide.{
  saturate, schedule_round0, move_to, update_to_app_state, hand_over, do_commit, start_commit,
}
use gobft.Core.NextHeight.{HasMovedOn, IsAtHeight, move_to_lem}

-- What the hand-over of a commit changes.
record HandedOver (c c' : Core) (signed : Commit) : Type 0 where
  height : c'.height ≡ c.height
  votes : c'.votes ≡ c.votes
  commit_round : c'.commit_round ≡ c.commit_round
  committed : c'.committed ≡ signed ∷ c.committed
  effects :
      c'.effects
      ≡ (if c.has_recv_commit_records then c.effects else broadcast (commit_msg signed) ∷ c.effects)

hand_over-HandedOver :
    (env : Env) (c : Core) (records : Commit)
    → HandedOver c (hand_over env c records) (sign_commit (validators_of env c) records)
hand_over-HandedOver env c records = elim (Bool-cases c.has_recv_commit_records) [
  | inl e ↦ record {
    height = rw e;
    votes = rw e;
    commit_round = rw e;
    committed = rw e;
    effects = rw e;
  }
  | inr e ↦ record {
    height = rw e;
    votes = rw e;
    commit_round = rw e;
    committed = rw e;
    effects = rw e;
  }
]

do_commit_run :
    (env : Env) (c c' : Core) (votes : HeightVoteSet) (vs : VoteSet) (records : Commit)
    (app : AppState)
    → c.votes ≡ some votes
    → precommits_of votes c.commit_round ≡ some vs
    → make_commit vs ≡ done records
    → let handed = hand_over env c (record records { commit_time = c.commit_time }) in
      (committee_of env handed).get_app_state ≡ some app
      → move_to env handed app ≡ done c'
      → do_commit env c records.proposed_data
        ≡ done (schedule_round0 env (record c' { has_recv_commit_records = false }))
unfolding do_commit update_to_app_state
do_commit_run env c c' votes vs records app v p made state moves =
    let handed = hand_over env c (record records { commit_time = c.commit_time }) in
    >>=-run (deref c.votes) _ (ap deref v)
    ∙ (>>=-run (deref (precommits_of votes c.commit_round)) _ (ap deref p)
        ∙ (>>=-run (make_commit vs) _ made
            ∙ (>>=-run (sane (records.proposed_data == records.proposed_data)) _
                  (ap sane ((==_iff records.proposed_data records.proposed_data).1 refl))
                ∙ >>=-run (update_to_app_state env handed (committee_of env handed).get_app_state) _
                    (ap (update_to_app_state env handed) state ∙ moves))))

-- The core as `enterCommit` sets it before the commit.
abbrev deciding : Env → Core → ℤ → Core
deciding env c commit_round =
    update_round_step (record c { commit_round = commit_round; commit_time = env.now }) c.round
      commit_step

start_commit_run :
    (env : Env) (c : Core) (votes : HeightVoteSet) (vs : VoteSet) (r : ℤ) (d : ProposedData)
    → c.votes ≡ some votes
    → precommits_of votes r ≡ some vs
    → two_thirds_majority (some vs) ≡ (d, true)
    → start_commit env c r ≡ do_commit env (deciding env c r) d
unfolding start_commit
start_commit_run env c votes vs r d v p m =
    let found : two_thirds_majority (precommits_of votes r) ≡ (d, true) =
      ap two_thirds_majority p ∙ m in
    >>=-run (deref c.votes) _ (ap deref v)
    ∙ (>>=-run (sane (two_thirds_majority (precommits_of votes r)).1) _
          (ap (λ (x : ProposedData × Bool). sane x.1) found)
        ∙ ap (λ (x : ProposedData × Bool). do_commit env (deciding env c r) x.0) found)

majority_is :
    (vs : VoteSet) (d : ProposedData)
    → two_thirds_majority (some vs) ≡ (d, true)
    → (vs.maj23 ≡ d) × (vs.maj23 ≢ nil_data) × (has_two_thirds_majority (some vs) ≡ true)
unfolding two_thirds_majority has_two_thirds_majority
majority_is vs d m = ground arith

-- The timeout after which round 0 of the core's height starts.
abbrev pub round0_timeout : Env → Core → TimeoutInfo
round0_timeout env c = record {
  duration =
      if ltb_ℤ (saturate (c.start_time -ℤ pos env.now)) (pos 0)
      then pos 0
      else saturate (c.start_time -ℤ pos env.now);
  height = c.height;
  round = pos 0;
  step = new_height;
}

-- Valid precommits with a majority for d, at a commit round that is not negative, decide the
-- height: `enterCommit` does not panic; it hands the application one commit for d, which
-- `ValidateBasic` accepts, and broadcasts it unless such commits were received already; and it
-- goes on to round 0 of the height after the application's last and schedules it, unlocked, with
-- no proposal and the precommits as the last commit. This holds of a node with a key and with
-- signatures that are not empty, and of an application that, handed a commit for d, is at the
-- height decided or a later one, which 64 bits hold, in a state that may depend on the commit.
pub start_commit_decides :
    (env : Env) (c : Core) (members : List PubKey) (votes : HeightVoteSet) (vs : VoteSet) (r : ℤ)
    (d : ProposedData) (app : Commit → AppState) (n : Commit → ℕ)
    → c.votes ≡ some votes
    → precommits_of votes r ≡ some vs
    → leb_ℤ (pos 0) r ≡ true
    → IsSetFor (validators_of env c) members votes.height votes.base r precommit_type vs
    → two_thirds_majority (some vs) ≡ (d, true)
    → env.priv_val.pub_key ≢ 0
    → ((digest : List ℕ) → env.priv_val.sign digest ≢ [])
    → ((commit : Commit)
        → commit.proposed_data ≡ d
        → (env.committee (commit ∷ c.committed)).get_app_state ≡ some (app commit))
    → ((commit : Commit) → commit.proposed_data ≡ d → HasMovedOn (app commit) c.height (n commit))
    → (c' : Core) × (commit : Commit) × (start_commit env c r ≡ done c')
      × (commit.proposed_data ≡ d)
      × (validate_commit commit ≡ none)
      × (c'.committed ≡ commit ∷ c.committed)
      × (c'.effects
          ≡ schedule (round0_timeout env c')
            ∷ (if c.has_recv_commit_records
                then c.effects
                else broadcast (commit_msg commit) ∷ c.effects))
      × (c'.last_commit ≡ some vs)
      × IsAtHeight c' (n commit) (app commit)
unfolding schedule_round0 schedule_timeout update_round_step sign_commit
start_commit_decides env c members votes vs r d app n v p real s m key signs hands moves_on =
    let (is_d, not_nil, has) = majority_is vs d m in
    let (records, made, for_maj, prev, precommits, accepted) =
      make_commit_valid (validators_of env c) members vs s.valid s.tidy s.same_type not_nil key
        signs in
    let for_d : records.proposed_data ≡ d = for_maj ∙ is_d in
    let c1 = deciding env c r in
    let ready = record records { commit_time = env.now } in
    let handed = hand_over env c1 ready in
    let h = hand_over-HandedOver env c1 ready in
    let signed = sign_commit (validators_of env c1) ready in
    let state : (committee_of env handed).get_app_state ≡ some (app signed) =
      ap (λ x. (env.committee x).get_app_state) h.committed ∙ hands signed for_d in
    let moved_on = moves_on signed for_d in
    let (c2, moves, at, last, kept, sent) =
      move_to_lem env handed (app signed) votes vs (n signed)
        (
          h.votes ∙ v,
          subst (λ x. precommits_of votes x ≡ some vs) (sym h.commit_round) p,
          subst (λ x. leb_ℤ (pos 0) x ≡ true) (sym h.commit_round) real,
          has,
        )
        (record {
          last = moved_on.last;
          at_least = subst (λ x. leb_ℤ x (pos (n signed)) ≡ true) (sym h.height) moved_on.at_least;
          fits = moved_on.fits;
        }) in
    (
      schedule_round0 env (record c2 { has_recv_commit_records = false }),
      signed,
      start_commit_run env c votes vs r d v p m
          ∙ (ap (do_commit env c1) (sym for_d)
              ∙ do_commit_run env c1 c2 votes vs records (app signed) v p made state moves),
      for_d,
      accepted env.now,
      kept ∙ h.committed,
      ap (◌∷◌ (schedule (round0_timeout env c2))) (sent ∙ h.effects),
      last,
      record {
        height = at.height;
        round = at.round;
        step = at.step;
        no_proposal = at.no_proposal;
        no_lock = at.no_lock;
        no_lock_round = at.no_lock_round;
        not_decided = at.not_decided;
        base = at.base;
        votes = at.votes;
        is_votes = at.is_votes;
        votes_height = at.votes_height;
        votes_base = at.votes_base;
        tracks = at.tracks;
        is_fresh = at.is_fresh;
      },
    )
