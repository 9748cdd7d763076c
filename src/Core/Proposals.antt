-- ===== src/Core/Proposals.antt =====
-- Which proposals a core takes (`defaultSetProposal` in bftcore.go).
use gobft.Base.{
  ◌≡◌, inl, inr, ◌⊎◌, ◌==ℤ◌, ==ℤ_iff, true, ◌||◌, not, Option, none, some, ◌==◌, is_some, arith,
  Bool-cases,
}
use gobft.Errors.{VoteError, invalid_proposer, invalid_proposal_signature}
use gobft.Message.{Vote}
use gobft.Committee.{verify_signature}
use gobft.Core.State.{Core, Env, committee_of, validators_of}
use gobft.Core.Enter.{enter_prevote}
use gobft.Core.Votes.{default_set_proposal}

-- A proposal that fits: the first one of this height and round, on the last committed data, signed by
-- the current proposer, and approved by the application.
pub record IsFit (env : Env) (c : Core) (proposal : Vote) : Type 0 where
  pub first : c.proposal ≡ none
  pub same_height : proposal.height ≡ c.height
  pub same_round : proposal.round ≡ c.round
  pub same_base : proposal.prev ≡ c.last_committed_data
  pub by_proposer : (committee_of env c).get_current_proposer c.round ≡ proposal.address
  pub verified : verify_signature (validators_of env c) proposal ≡ true
  pub approved : (committee_of env c).validate_proposal proposal.proposed ≡ true

-- `defaultSetProposal` takes exactly the proposals that fit, and then enters the prevote step with the
-- proposal; any other proposal leaves the core as it was, with or without an error.
pub default_set_proposal-IsFit :
    (env : Env) (c : Core) (proposal : Vote)
    → (IsFit env c proposal
        × (default_set_proposal env c proposal
            ≡ (enter_prevote env (record c { proposal = some proposal }) c.height c.round, none)))
      ⊎ ((¬ IsFit env c proposal)
          × ((e : Option VoteError) × (default_set_proposal env c proposal ≡ (c, e))))
unfolding default_set_proposal
default_set_proposal-IsFit env c proposal = elim (Bool-cases (is_some c.proposal)) [
  | inl a ↦ inr ((λ f. ground (arith, f.first)), (none, rw a))
  | inr a ↦
      elim (Bool-cases (not (proposal.height ==ℤ c.height) || not (proposal.round ==ℤ c.round))) [
        | inl b ↦ inr (
          (λ f. ground (
            arith,
            f.same_height,
            f.same_round,
            ==ℤ_iff proposal.height c.height,
            ==ℤ_iff proposal.round c.round,
          )),
          (none, rw (a, b)),
        )
        | inr b ↦ elim (Bool-cases (proposal.prev == c.last_committed_data)) [
          | inr p ↦ inr ((λ f. ground (arith, f.same_base)), (none, rw (a, b, p)))
          | inl p ↦
              elim (Bool-cases
                ((committee_of env c).get_current_proposer c.round == proposal.address)) [
                  | inr q ↦ inr (
                    (λ f. ground (arith, f.by_proposer)),
                    (some invalid_proposer, rw (a, b, p, q)),
                  )
                  | inl q ↦ elim (Bool-cases (verify_signature (validators_of env c) proposal)) [
                    | inr s ↦ inr (
                      (λ f. ground (arith, f.verified)),
                      (some invalid_proposal_signature, rw (a, b, p, q, s)),
                    )
                    | inl s ↦
                        elim (Bool-cases
                          ((committee_of env c).validate_proposal proposal.proposed)) [
                            | inr t ↦
                                inr
                                  ((λ f. ground (arith, f.approved)), (none, rw (a, b, p, q, s, t)))
                            | inl t ↦ inl (
                              record {
                                first = ground arith;
                                same_height = ground (arith, ==ℤ_iff proposal.height c.height);
                                same_round = ground (arith, ==ℤ_iff proposal.round c.round);
                                same_base = ground arith;
                                by_proposer = ground arith;
                                verified = s;
                                approved = t;
                              },
                              rw (a, b, p, q, s, t),
                            )
                          ]
                  ]
                ]
        ]
      ]
]
