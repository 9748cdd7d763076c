-- ===== src/HeightVoteSet/Polkas.antt =====
-- The majorities and the sums of the rounds (height_vote_set.go), which new rounds leave as they are.
use gobft.Base.{
  ℕ, zero, suc, ◌≡◌, ◌≢◌, refl, sym, ap, ◌∙◌, subst, inl, inr, ℤ, pos, ◌+ℤ◌, ◌-ℤ◌, int64, ◌==ℤ◌,
  ==ℤ_iff, pos_part, not, ◌&&◌, ltb_ℤ, Bool, false, Option, none, some, lookup, lookup-insert,
  int_key, done, >>=-eq-done, sane-eq-done, done_injective, Bool-cases, Option-cases,
}
use gobft.Message.{ProposedData, nil_data}
use gobft.VoteSet.{two_thirds_majority}
use gobft.VoteSet.Sum.{IsSummed}
use gobft.HeightVoteSet.{
  HeightVoteSet, RoundVoteSet, add_rounds, set_round, prevotes_of, precommits_of,
}
use gobft.HeightVoteSet.Rounds.{fresh_round, with_round, write_round, add_round_lem}

abbrev pub polka_of : HeightVoteSet → ℤ → ProposedData × Bool
polka_of hvs r = two_thirds_majority (prevotes_of hvs r)

-- The same majorities of prevotes in every round.
abbrev pub SamePolkas : HeightVoteSet → HeightVoteSet → Type 0
SamePolkas hvs hvs' = (k : ℤ) → polka_of hvs' k ≡ polka_of hvs k

pub prevotes_of-some :
    (hvs : HeightVoteSet) (r : ℤ) (rvs : RoundVoteSet)
    → lookup r hvs.round_vote_sets ≡ some rvs
    → prevotes_of hvs r ≡ some rvs.prevotes
unfolding prevotes_of
prevotes_of-some hvs r rvs e = rw (e, prevotes_of)

pub precommits_of-some :
    (hvs : HeightVoteSet) (r : ℤ) (rvs : RoundVoteSet)
    → lookup r hvs.round_vote_sets ≡ some rvs
    → precommits_of hvs r ≡ some rvs.precommits
unfolding precommits_of
precommits_of-some hvs r rvs e = rw (e, precommits_of)

pub polka-none :
    (hvs : HeightVoteSet) (r : ℤ)
    → lookup r hvs.round_vote_sets ≡ none
    → polka_of hvs r ≡ (nil_data, false)
unfolding prevotes_of two_thirds_majority
polka-none hvs r e = rw (e, prevotes_of)

polka_fresh :
    (hvs old : HeightVoteSet) (r k : ℤ)
    → lookup r hvs.round_vote_sets ≡ some (fresh_round old k)
    → polka_of hvs r ≡ (nil_data, false)
unfolding two_thirds_majority
polka_fresh hvs old r k e = rw (prevotes_of-some hvs r (fresh_round old k) e)

pub same_lookup :
    (hvs hvs' : HeightVoteSet) (k : ℤ)
    → lookup k hvs.round_vote_sets ≡ lookup k hvs'.round_vote_sets
    → polka_of hvs k ≡ polka_of hvs' k
unfolding prevotes_of
same_lookup hvs hvs' k e = elim (Option-cases (lookup k hvs'.round_vote_sets)) [
  | inl n ↦ polka-none hvs k (e ∙ n) ∙ sym (polka-none hvs' k n)
  | inr (rvs, s) ↦
      ap two_thirds_majority
        (prevotes_of-some hvs k rvs (e ∙ s) ∙ sym (prevotes_of-some hvs' k rvs s))
]

pub with_round-SamePolkas :
    (hvs : HeightVoteSet) (r : ℤ)
    → lookup r hvs.round_vote_sets ≡ none
    → SamePolkas hvs (with_round hvs r)
with_round-SamePolkas hvs r e k =
    let at = lookup-insert r k (fresh_round hvs r) hvs.round_vote_sets in
    elim (Bool-cases (r ==ℤ k)) [
      | inl hit ↦
          let gone : lookup k hvs.round_vote_sets ≡ none =
            ap (λ j. lookup j hvs.round_vote_sets) (sym ((==ℤ_iff r k).0 hit)) ∙ e in
          polka_fresh (with_round hvs r) hvs k r (at ∙ rw hit) ∙ sym (polka-none hvs k gone)
      | inr miss ↦ same_lookup (with_round hvs r) hvs k (at ∙ rw miss)
    ]

add_rounds-SamePolkas :
    (n : ℕ) (r : ℤ) (hvs hvs' : HeightVoteSet)
    → hvs.height ≢ pos 0
    → add_rounds n r hvs ≡ done hvs'
    → SamePolkas hvs hvs'
unfolding add_rounds
add_rounds-SamePolkas zero r hvs hvs' h run k = ap (λ x. polka_of x k) (sym (done_injective run))
add_rounds-SamePolkas (suc n) r hvs hvs' h run k =
    elim (Option-cases (lookup r hvs.round_vote_sets)) [
      | inr (rvs, e) ↦
          add_rounds-SamePolkas n (int64 (r +ℤ pos 1)) hvs hvs' h (rw (e, add_rounds) at run) k
      | inl e ↦
          let made = add_round_lem hvs r h e in
          add_rounds-SamePolkas n (int64 (r +ℤ pos 1)) (with_round hvs r) hvs' h
            (rw (e, add_rounds, made) at run) k
          ∙ with_round-SamePolkas hvs r e k
    ]

-- The sum of every vote set is the power of the votes recorded in it.
abbrev pub IsCounted : HeightVoteSet → Type 0
IsCounted hvs =
    (r : ℤ) (rvs : RoundVoteSet)
    → lookup r hvs.round_vote_sets ≡ some rvs
    → IsSummed rvs.prevotes × IsSummed rvs.precommits

pub fresh_round-IsSummed :
    (hvs : HeightVoteSet) (r : ℤ)
    → IsSummed (fresh_round hvs r).prevotes × IsSummed (fresh_round hvs r).precommits
fresh_round-IsSummed hvs r = (refl, refl)

pub write_round-IsCounted :
    (hvs : HeightVoteSet) (r : ℤ) (rvs : RoundVoteSet)
    → IsSummed rvs.prevotes × IsSummed rvs.precommits
    → IsCounted hvs
    → IsCounted (write_round hvs r rvs)
write_round-IsCounted hvs r rvs s counted k found e =
    let at = lookup-insert r k rvs hvs.round_vote_sets in
    elim (Bool-cases (r ==ℤ k)) [
      | inl hit ↦
          let is_new : ◌≡◌ {A = Option RoundVoteSet} (some rvs) (some found) =
            sym (at ∙ rw hit) ∙ e in
          subst (λ (x : RoundVoteSet). IsSummed x.prevotes × IsSummed x.precommits) {x = rvs}
            (some_injective is_new) s
      | inr miss ↦ counted k found (sym (at ∙ rw miss) ∙ e)
    ]
  where
    some_injective : {a b : RoundVoteSet} → ◌≡◌ {A = Option RoundVoteSet} (some a) (some b) → a ≡ b
    some_injective {a} h = ap (λ o. elim o [ none ↦ a | some x ↦ x ]) h

add_rounds-IsCounted :
    (n : ℕ) (r : ℤ) (hvs hvs' : HeightVoteSet)
    → hvs.height ≢ pos 0
    → add_rounds n r hvs ≡ done hvs'
    → IsCounted hvs
    → IsCounted hvs'
unfolding add_rounds
add_rounds-IsCounted zero r hvs hvs' h run counted = subst IsCounted (done_injective run) counted
add_rounds-IsCounted (suc n) r hvs hvs' h run counted =
    elim (Option-cases (lookup r hvs.round_vote_sets)) [
      | inr (rvs, e) ↦
          add_rounds-IsCounted n (int64 (r +ℤ pos 1)) hvs hvs' h (rw (e, add_rounds) at run) counted
      | inl e ↦
          let made = add_round_lem hvs r h e in
          add_rounds-IsCounted n (int64 (r +ℤ pos 1)) (with_round hvs r) hvs' h
            (rw (e, add_rounds, made) at run)
            (write_round-IsCounted hvs r (fresh_round hvs r) (fresh_round-IsSummed hvs r) counted)
    ]

grown_by :
    (hvs hvs' : HeightVoteSet) (r : ℤ)
    → set_round hvs r ≡ done hvs'
    → (grown : HeightVoteSet) × (add_rounds
          (pos_part (r -ℤ hvs.round))
          (int64 (hvs.round +ℤ pos 1))
          hvs
        ≡ done grown)
      × (record grown { round = r } ≡ hvs')
unfolding set_round
grown_by hvs hvs' r run =
    let grows =
      (sane-eq-done (not (not (hvs.round ==ℤ pos 0) && ltb_ℤ r (int64 (hvs.round +ℤ pos 1)))) _
        run).1 in
    let (grown, adds, ends) =
      >>=-eq-done (add_rounds (pos_part (r -ℤ hvs.round)) (int64 (hvs.round +ℤ pos 1)) hvs) _
        grows in
    (grown, adds, done_injective ends)

-- `SetRound` makes no majority.
pub set_round-SamePolkas :
    (hvs hvs' : HeightVoteSet) (r : ℤ)
    → hvs.height ≢ pos 0
    → set_round hvs r ≡ done hvs'
    → SamePolkas hvs hvs'
unfolding prevotes_of
set_round-SamePolkas hvs hvs' r h run k =
    let (grown, adds, ends) = grown_by hvs hvs' r run in
    ap (λ x. polka_of x k) (sym ends)
    ∙ add_rounds-SamePolkas (pos_part (r -ℤ hvs.round)) (int64 (hvs.round +ℤ pos 1)) hvs grown h
        adds k

pub set_round-IsCounted :
    (hvs hvs' : HeightVoteSet) (r : ℤ)
    → hvs.height ≢ pos 0
    → set_round hvs r ≡ done hvs'
    → IsCounted hvs
    → IsCounted hvs'
set_round-IsCounted hvs hvs' r h run counted =
    let (grown, adds, ends) = grown_by hvs hvs' r run in
    subst IsCounted ends (
      add_rounds-IsCounted (pos_part (r -ℤ hvs.round)) (int64 (hvs.round +ℤ pos 1)) hvs grown h adds
        counted)
