-- ===== src/Message/Commits.antt =====
-- What `Commit.ValidateBasic` accepts (message/message.go).
use gobft.Base.{
  ◌≡◌, refl, ◌≢◌, ◌↔◌, ℤ, Bool, true, Option, none, some, List, [], ◌∷◌, map, All, All-map, All-and,
  Distinct, ==ℤ_iff, lookup, lookup-insert, insert, nat_key, arith,
}
use gobft.Message.{PubKey, nil_data, precommit_type, Vote, Commit, commit_height, commit_round}
use gobft.Message.Validate.{Invalid, check_precommit, check_precommits, validate_commit}

-- The votes that are not nil.
abbrev pub present : List (Option Vote) → List Vote
present [] = []
present (none ∷ vs) = present vs
present (some v ∷ vs) = v ∷ present vs

abbrev pub address_of : Vote → PubKey
address_of v = v.address

-- A precommit for the commit's data, at this height and round, on the commit's base.
pub record Agrees (commit : Commit) (height round : ℤ) (v : Vote) : Type 0 where
  pub is_precommit : v.type_ ≡ precommit_type
  pub same_height : v.height ≡ height
  pub same_round : v.round ≡ round
  pub same_prev : v.prev ≡ commit.prev
  pub same_proposed : v.proposed ≡ commit.proposed_data

pub record IsWellFormed (commit : Commit) : Type 0 where
  pub not_nil : commit.proposed_data ≢ nil_data
  pub some_precommit : commit.precommits ≢ []
  pub all_agree :
      All (Agrees commit (commit_height commit) (commit_round commit)) (present commit.precommits)
  pub one_each : Distinct (map address_of (present commit.precommits))
  pub has_address : commit.address ≢ 0
  pub has_signature : commit.signature ≢ []

check_precommit-none :
    (commit : Commit) (height round : ℤ) (v : Vote)
    → check_precommit commit height round v ≡ none
    → Agrees commit height round v
unfolding check_precommit
check_precommit-none commit height round v h =
    ground (arith, ==ℤ_iff v.height height, ==ℤ_iff v.round round)

none-check_precommit :
    (commit : Commit) (height round : ℤ) (v : Vote)
    → Agrees commit height round v
    → check_precommit commit height round v ≡ none
unfolding check_precommit
none-check_precommit commit height round v h =
    ground (arith, ==ℤ_iff v.height height, ==ℤ_iff v.round round)

abbrev Unseen : List (PubKey × Bool) → PubKey → Type 0
Unseen cache a = lookup a cache ≡ none

Unseen-split :
    (a b : PubKey) (cache : List (PubKey × Bool))
    → Unseen (insert a true cache) b
    → (b ≢ a) × Unseen cache b
Unseen-split a b cache h = (
  λ e. ground (arith, lookup-insert a b true cache),
  ground (arith, lookup-insert a b true cache),
)

Unseen-join :
    (a b : PubKey) (cache : List (PubKey × Bool))
    → (b ≢ a) × Unseen cache b
    → Unseen (insert a true cache) b
Unseen-join a b cache h = ground (arith, lookup-insert a b true cache)

-- What the loop accepts.
record Accepted (commit : Commit) (height round : ℤ) (cache : List (PubKey × Bool)) (vs : List Vote)
    : Type 0 where
  agree : All (Agrees commit height round) vs
  one_each : Distinct (map address_of vs)
  unseen : All (Unseen cache) (map address_of vs)

accept_cons :
    (commit : Commit) (height round : ℤ) (cache : List (PubKey × Bool)) (v : Vote) (vs : List Vote)
    → Agrees commit height round v
    → Unseen cache v.address
    → Accepted commit height round (insert v.address true cache) vs
    → Accepted commit height round cache (v ∷ vs)
accept_cons commit height round cache v vs a u acc = record {
  agree = (a, acc.agree);
  one_each = (
    All-map (Unseen (insert v.address true cache)) _ (map address_of vs)
        (λ b h. (Unseen-split v.address b cache h).0) acc.unseen,
    acc.one_each,
  );
  unseen = (
    u,
    All-map (Unseen (insert v.address true cache)) _ (map address_of vs)
        (λ b h. (Unseen-split v.address b cache h).1) acc.unseen,
  );
}

accept_tail :
    (commit : Commit) (height round : ℤ) (cache : List (PubKey × Bool)) (v : Vote) (vs : List Vote)
    → Accepted commit height round cache (v ∷ vs)
    → Accepted commit height round (insert v.address true cache) vs
accept_tail commit height round cache v vs acc = record {
  agree = acc.agree.1;
  one_each = acc.one_each.1;
  unseen =
      All-map _ _ (map address_of vs) (λ b h. Unseen-join v.address b cache h)
        (All-and (λ b. b ≢ v.address) (Unseen cache) (map address_of vs) acc.one_each.0
          acc.unseen.1);
}

check_precommits-none :
    (commit : Commit) (height round : ℤ) (cache : List (PubKey × Bool)) (vs : List (Option Vote))
    → check_precommits commit height round cache vs ≡ none
    → Accepted commit height round cache (present vs)
unfolding check_precommits
check_precommits-none commit height round cache [] h = record {
  agree = tt;
  one_each = tt;
  unseen = tt;
}
check_precommits-none commit height round cache (none ∷ vs) h =
    check_precommits-none commit height round cache vs h
check_precommits-none commit height round cache (some v ∷ vs) h =
    accept_cons commit height round cache v (present vs)
      (check_precommit-none commit height round v (ground arith)) (ground arith)
      (check_precommits-none commit height round (insert v.address true cache) vs (ground arith))

none-check_precommits :
    (commit : Commit) (height round : ℤ) (cache : List (PubKey × Bool)) (vs : List (Option Vote))
    → Accepted commit height round cache (present vs)
    → check_precommits commit height round cache vs ≡ none
unfolding check_precommits
none-check_precommits commit height round cache [] acc = refl
none-check_precommits commit height round cache (none ∷ vs) acc =
    none-check_precommits commit height round cache vs acc
none-check_precommits commit height round cache (some v ∷ vs) acc = ground (
  arith,
  none-check_precommit commit height round v acc.agree.0,
  none-check_precommits commit height round (insert v.address true cache) vs
      (accept_tail commit height round cache v (present vs) acc),
)

abbrev loop_result : Commit → Option Invalid
loop_result commit =
    check_precommits commit (commit_height commit) (commit_round commit) [] commit.precommits

accepted-IsWellFormed : (commit : Commit) → validate_commit commit ≡ none → IsWellFormed commit
unfolding validate_commit
accepted-IsWellFormed commit h =
    let passed : loop_result commit ≡ none = ground arith in
    let acc =
      check_precommits-none commit (commit_height commit) (commit_round commit) [] commit.precommits
        passed in
    record {
      not_nil = ground arith;
      some_precommit = ground arith;
      all_agree = acc.agree;
      one_each = acc.one_each;
      has_address = ground arith;
      has_signature = ground arith;
    }

All-Unseen : (keys : List PubKey) → All (Unseen []) keys
unfolding lookup
All-Unseen [] = tt
All-Unseen (a ∷ keys) = (refl, All-Unseen keys)

IsWellFormed-accepted : (commit : Commit) → IsWellFormed commit → validate_commit commit ≡ none
unfolding validate_commit
IsWellFormed-accepted commit w =
    let passed : loop_result commit ≡ none =
      none-check_precommits commit _ _ [] commit.precommits
        (record { agree = w.all_agree; one_each = w.one_each; unseen = All-Unseen _ }) in
    ground arith

-- `Commit.ValidateBasic` accepts exactly the commits whose data is not nil, that hold precommits,
-- whose non-nil precommits are precommits for that data on the commit's base, all at the height and
-- round of the first, from pairwise different addresses, and that have an address and a signature.
pub validate_commit_iff : (commit : Commit) → (validate_commit commit ≡ none) ↔ IsWellFormed commit
unfolding validate_commit
validate_commit_iff commit = (accepted-IsWellFormed commit, IsWellFormed-accepted commit)
