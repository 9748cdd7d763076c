-- ===== src/Message/Digest.antt =====
-- message/message.go: the bytes that are hashed and signed. `binary.Write` puts out fixed-size
-- values only: for an `int`, a `string` or a `time.Time` it returns an error and writes nothing,
-- and the digests drop that error. SHA-256 and the codec are arguments.
use gobft.Base.{
  ℕ, ◌-◌, ◌+◌, ◌%◌, ℤ, pos_part, neg_part, List, [], ◌∷◌, ◌++◌, Option, none, some, big_endian,
}
use gobft.Message.{PubKey, Vote, Commit, FetchVotesReq, FetchVotesRsp}

-- What the digests hand to `binary.Write`, by its Go type.
pub data Value : Type 0 where
  byte : ℕ → Value
  int64_value : ℤ → Value
  bytes : List ℕ → Value
  array32 : ℕ → Value
  int_value : ℤ → Value
  string_value : PubKey → Value
  time_value : ℕ → Value

-- The 64-bit pattern of a signed integer.
abbrev pub bits64 : ℤ → ℕ
bits64 z =
    (pos_part z + (18446744073709551616 - neg_part z % 18446744073709551616)) % 18446744073709551616

-- `binary.Write(buf, binary.BigEndian, v)`: what it appends to `buf`.
unfoldable pub binary_write : Value → List ℕ
unfolding big_endian
binary_write (byte b) = b ∷ []
binary_write (int64_value z) = big_endian 8 (bits64 z)
binary_write (bytes bs) = bs
binary_write (array32 x) = big_endian 32 x
binary_write (int_value z) = []
binary_write (string_value k) = []
binary_write (time_value t) = []

-- SHA-256, `cdcEncode` of a vote (nil for a nil vote), `MarshalBinary` of a time, and the bytes of a
-- key.
pub record Hashing : Type 0 where
  pub sha256 : List ℕ → List ℕ
  pub encode_vote : Option Vote → List ℕ
  pub marshal_time : ℕ → List ℕ
  pub key_bytes : PubKey → List ℕ

-- The buffer of `Vote.Digest`.
unfoldable pub vote_preimage : Vote → List ℕ
unfolding binary_write
vote_preimage v =
    binary_write (byte v.type_)
    ++ (binary_write (int64_value v.height)
        ++ (binary_write (int_value v.round)
            ++ (binary_write (time_value v.timestamp)
                ++ (binary_write (array32 v.proposed)
                    ++ (binary_write (array32 v.prev) ++ binary_write (string_value v.address))))))

unfoldable pub vote_digest : Hashing → Vote → List ℕ
vote_digest h v = h.sha256 (vote_preimage v)

encode_votes : Hashing → List (Option Vote) → List ℕ
encode_votes h [] = []
encode_votes h (v ∷ vs) = h.encode_vote v ++ encode_votes h vs

unfoldable pub commit_digest : Hashing → Commit → List ℕ
unfolding encode_votes big_endian
commit_digest h c = h.sha256 (
    big_endian 32 c.proposed_data
    ++ (big_endian 32 c.prev
        ++ (encode_votes h c.precommits
            ++ (h.marshal_time c.commit_time ++ h.key_bytes c.address))))

write_keys : List PubKey → List ℕ
unfolding binary_write
write_keys [] = []
write_keys (k ∷ ks) = binary_write (string_value k) ++ write_keys ks

unfoldable pub fetch_req_digest : Hashing → FetchVotesReq → List ℕ
unfolding binary_write write_keys
fetch_req_digest h r = h.sha256 (
    binary_write (byte r.type_)
    ++ (binary_write (int64_value r.height)
        ++ (binary_write (int_value r.round)
            ++ (binary_write (string_value r.invoker)
                ++ (write_keys r.voters ++ binary_write (time_value r.time))))))

-- `none` is the nil dereference of `MissingVotes[i].Digest()`.
unfoldable pub write_digests : Hashing → List (Option Vote) → Option (List ℕ)
unfolding binary_write
write_digests h [] = some []
write_digests h (none ∷ vs) = none
write_digests h (some v ∷ vs) = elim (write_digests h vs) [
  | none ↦ none
  | some bs ↦ some (binary_write (bytes (vote_digest h v)) ++ bs)
]

unfoldable pub fetch_rsp_digest : Hashing → FetchVotesRsp → Option (List ℕ)
unfolding binary_write write_digests
fetch_rsp_digest h r = elim (write_digests h r.missing_votes) [
  | none ↦ none
  | some ds ↦ some (
      h.sha256 (
        binary_write (byte r.type_)
        ++ (binary_write (int64_value r.height)
            ++ (binary_write (int_value r.round)
                ++ (binary_write (string_value r.responser)
                    ++ (ds ++ binary_write (time_value r.time)))))))
]
