-- ===== src/Scenarios/Sync.antt =====
-- Runs of the state sync (state_sync.go): a late vote for the height that the core is at.
use gobft.Base.{◌≡◌, ◌≤◌, ◌*◌, ◌/◌, refl, ap, pos, leb_ℤ, some, [], arith, done}
use gobft.Committee.{sign_vote, get_voting_power}
use gobft.Weights.{weight, power_of}
use gobft.VoteSet.Invariant.{total}
use gobft.StateSync.{StateSync, sync_add_vote}
use gobft.StateSync.Stale.{LeavesAhead, sync_add_vote-LeavesAhead}
use gobft.Scenarios.{members, node, four-IsCommittee, prevote_for}
use gobft.Scenarios.Heights.{fourth_type}
use gobft.Scenarios.Cores.{env_1, core_1}

-- The votes of no height.
abbrev idle : StateSync
idle = record { height_votes = [] }

power_4 : power_of (node 1) (prevote_for 4 6).address ≤ 2 * total (node 1) members / 3
unfolding sign_vote total weight get_voting_power
power_4 = ground arith

height_4 : (prevote_for 4 6).height ≡ pos 1
unfolding sign_vote
height_4 = refl

sync_add_vote-LeavesAhead_example :
    (s' : StateSync) × (sync_add_vote env_1 idle core_1 (some (prevote_for 4 6))
      ≡ done (s', core_1))
    × LeavesAhead idle s' core_1.height (prevote_for 4 6).height
sync_add_vote-LeavesAhead_example =
    sync_add_vote-LeavesAhead env_1 idle core_1 (prevote_for 4 6) members four-IsCommittee
      fourth_type (λ e. ground (arith, height_4, e)) (ap (λ h. leb_ℤ h (pos 1)) height_4) power_4
