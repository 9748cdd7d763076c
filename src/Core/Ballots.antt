-- ===== src/Core/Ballots.antt =====
-- The loops over the votes of a commit and of a response (bftcore.go), from a sound core.
use gobft.Base.{
  ℕ, ◌+◌, ◌<◌, ◌≡◌, refl, sym, ap, ◌∙◌, subst, ℤ, pos, leb_ℤ, ltb_ℤ, ◌==ℤ◌, ==ℤ_iff, Bool, ◌||◌,
  ◌&&◌, arith, true, Option, none, some, List, [], ◌∷◌, done, >>=-run,
}
use gobft.Message.{PubKey, Vote, Commit}
use gobft.Message.Validate.{validate_commit}
use gobft.Weights.{IsCommittee}
use gobft.HeightVoteSet.{HeightVoteSet}
use gobft.Core.State.{Core, Env}
use gobft.Core.Votes.{core_add_vote, try_add_vote}
use gobft.Core.Messages.{try_add_votes}
use gobft.Core.Within.{not_before, not_before_refl, not_before_trans, IsSound, Stays}
use gobft.Core.NextSound.{IsWorking, Proceeds, stayed, moved_on}
use gobft.Core.Adding.{HasRoom}
use gobft.Core.Soundness.{core_add_vote-Answers}

-- The heights decided, one commit for each, from one height and list of commits to another.
pub data Decides (height : ℤ) (commits : List Commit) : ℤ → List Commit → Type 0 where
  same : Decides height commits height commits
  then_decides :
      (commit : Commit) (at : ℤ) (before : List Commit) (h : ℕ)
      → Decides height commits at before
      → validate_commit commit ≡ none
      → leb_ℤ at (pos h) ≡ true
      → Decides height commits (pos (h + 1)) (commit ∷ before)

Decides-trans :
    {h h' : ℤ} {cs cs' : List Commit} {h'' : ℤ} {cs'' : List Commit}
    → Decides h cs h' cs'
    → Decides h' cs' h'' cs''
    → Decides h cs h'' cs''
Decides-trans d same = d
Decides-trans d (then_decides commit at before h e accepted le) =
    then_decides commit at before h (Decides-trans d e) accepted le

-- A later height, or the same one at the same position or a later one.
abbrev pub goes_on : Core → Core → Bool
goes_on c c' = ltb_ℤ c.height c'.height || (c.height ==ℤ c'.height && not_before c c')

goes_on_trans : (a b c : Core) → goes_on a b ≡ true → goes_on b c ≡ true → goes_on a c ≡ true
goes_on_trans a b c h k = ground (arith, h, k, not_before_trans a b c)

stayed-goes_on : (c c' : Core) → c'.height ≡ c.height → not_before c c' ≡ true → goes_on c c' ≡ true
stayed-goes_on c c' h later =
    let same : (c.height ==ℤ c'.height) ≡ true = (==ℤ_iff c.height c'.height).1 (sym h) in
    ground (arith, same, later)

decided-goes_on :
    (c c' : Core) (h : ℕ)
    → c'.height ≡ pos (h + 1)
    → leb_ℤ c.height (pos h) ≡ true
    → goes_on c c' ≡ true
decided-goes_on c c' h at le =
    let after : ltb_ℤ c.height (pos (h + 1)) ≡ true = ground (arith, le) in
    let higher : ltb_ℤ c.height c'.height ≡ true = ap (ltb_ℤ c.height) at ∙ after in
    ground (arith, higher)

-- The core afterwards is sound, for the members that its own commits give, and has decided its heights
-- one after the other, and is not back at an earlier height, round or step.
pub record Advances (env : Env) (members_of : List Commit → List PubKey) (c c' : Core)
    : Type 0 where
  pub sound : IsSound env (members_of c'.committed) c'
  pub forward : goes_on c c' ≡ true
  pub decides : Decides c.height c.committed c'.height c'.committed

-- Whatever was committed, the committee is as its interface documents it.
abbrev pub AreCommittees : Env → (List Commit → List PubKey) → Type 0
AreCommittees env members_of =
    (commits : List Commit)
    → IsCommittee
        (record {
          committee = env.committee commits;
          priv_val = env.priv_val;
          hashing = env.hashing;
        })
        (members_of commits)

module _ {env : Env} {members_of : List Commit → List PubKey} {c : Core} where
  pub still : IsSound env (members_of c.committed) c → Advances env members_of c c
  still s = record {
    sound = s;
    forward = stayed-goes_on c c refl (not_before_refl c);
    decides = Decides.same;
  }

  pub Advances-trans :
      {c' c'' : Core}
      → Advances env members_of c c'
      → Advances env members_of c' c''
      → Advances env members_of c c''
  Advances-trans {c'} {c''} p q = record {
    sound = q.sound;
    forward = goes_on_trans c c' c'' p.forward q.forward;
    decides = Decides-trans p.decides q.decides;
  }

  -- The same height and commits.
  pub stayed-Advances :
      {c' : Core} → Stays env (members_of c.committed) c c' → Advances env members_of c c'
  stayed-Advances {c'} st = record {
    sound = subst (λ cs. IsSound env (members_of cs) c') (sym st.committed) st.sound;
    forward = stayed-goes_on c c' st.height st.later;
    decides =
        subst (λ x. Decides c.height c.committed x c'.committed) (sym st.height)
          (subst (Decides c.height c.committed c.height) (sym st.committed) Decides.same);
  }

  Proceeds-Advances :
      {c' : Core} → Proceeds env (members_of c.committed) c c' → Advances env members_of c c'
  Proceeds-Advances (stayed st) = stayed-Advances st
  Proceeds-Advances {c'} (moved_on commit h accepted kept at later s) = record {
    sound = s (members_of c'.committed);
    forward = decided-goes_on c c' h at later;
    decides =
        subst (λ x. Decides c.height c.committed x c'.committed) (sym at)
          (subst (Decides c.height c.committed (pos (h + 1))) (sym kept)
            (Decides.then_decides commit c.height c.committed h Decides.same accepted later));
  }

-- What 64 bits must hold for a vote, and what the application must do if it decides.
pub record FitsVote (env : Env) (c : Core) (vote : Vote) : Type 0 where
  pub working : IsWorking env c
  pub near : (n : ℕ) → c.round ≡ pos n → n < 9223372036854775000
  pub room : (votes : HeightVoteSet) → c.votes ≡ some votes → HasRoom env c votes vote

-- The same of every vote in turn; none is nil.
abbrev pub FitsVotes : Env → Core → List (Option Vote) → Type 0
FitsVotes env c [] = Unit
FitsVotes env c (none ∷ vs) = ⊥
FitsVotes env c (some v ∷ vs) =
    FitsVote env c v × ((c' : Core) → try_add_vote env c (some v) ≡ done c' → FitsVotes env c' vs)

module _ {env : Env} {members_of : List Commit → List PubKey}
    (comms : AreCommittees env members_of) where
  pub try_add_vote-Advances :
      {c : Core} (vote : Vote)
      → IsSound env (members_of c.committed) c
      → FitsVote env c vote
      → (c' : Core) × (try_add_vote env c (some vote) ≡ done c') × Advances env members_of c c'
  unfolding try_add_vote
  try_add_vote-Advances {c} vote s fits =
      let (c', added, e, run, p) =
        core_add_vote-Answers env (members_of c.committed) s vote (comms c.committed) fits.working
          (fits.near s.n s.within.in_round) (fits.room s.votes s.within.has_votes) in
      (c', >>=-run (core_add_vote env c (some vote)) _ run, Proceeds-Advances p)

  pub try_add_votes-Advances :
      (vs : List (Option Vote)) {c : Core}
      → IsSound env (members_of c.committed) c
      → FitsVotes env c vs
      → (c' : Core) × (try_add_votes env c vs ≡ done c') × Advances env members_of c c'
  unfolding try_add_votes
  try_add_votes-Advances [] {c} s fits = (c, refl, still s)
  try_add_votes-Advances (none ∷ vs) s fits = absurd fits
  try_add_votes-Advances (some v ∷ vs) {c} s fits =
      let (c1, run, p) = try_add_vote-Advances v s fits.0 in
      let (c2, runs, q) = try_add_votes-Advances vs p.sound (fits.1 c1 run) in
      (c2, >>=-run (try_add_vote env c (some v)) _ run ∙ runs, Advances-trans p q)
