-- ===== src/Committee/Signing.antt =====
-- What a signature vouches for (validators.go, and the digests of message/message.go).
use gobft.Base.{◌≡◌, refl, ℕ, ℤ}
use gobft.Message.{Vote}
use gobft.Message.Digest.{vote_preimage, vote_digest}
use gobft.Committee.{Validators, verify_signature}

-- The signature of a vote does not depend on its round or timestamp: if it verifies, it also
-- verifies on the same vote moved to any other round and time.
pub verify_signature_moved :
    (vals : Validators) (v : Vote) (round : ℤ) (timestamp : ℕ)
    → verify_signature vals (record v { round = round; timestamp = timestamp })
      ≡ verify_signature vals v
unfolding verify_signature vote_digest vote_preimage
verify_signature_moved vals v round timestamp = refl
