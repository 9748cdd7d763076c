-- ===== src/Lib.antt =====
-- gobft, a Byzantine fault tolerant consensus library: the validators of a committee agree on one
-- proposed data per height, in rounds of a proposal, prevotes and precommits. Each validator runs one
-- `Core` (bftcore.go), which takes messages from a queue and timeouts from a ticker, one at a time.
-- It keeps the votes of its height in a `HeightVoteSet` (height_vote_set.go), which keeps two
-- `VoteSet`s (vote_set.go) for each round. What the embedding program supplies, a committee, a
-- private key and the network, stands behind the interfaces of custom/Ivalidator.go, which the code
-- calls through `Validators` (validators.go).
--
-- The files, and the code that they model:
--   Base           names shared by all: int64 (wrap-around written out), maps, panics, lists
--   Errors         errors.go
--   Message        message/message.go: the types; Message/Digest the digests; Message/Validate the
--                  `ValidateBasic` methods; Message/Commits what they accept
--   Committee      custom/Ivalidator.go, message/app_state.go, validators.go; Committee/Signing
--                  what a signature vouches for
--   Weights        voting power as the documents speak of it; it models no code
--   VoteSet        vote_set.go; VoteSet/Missing the fetch messages; Outcomes, Invariant,
--                  Preservation, Majority, Evidence, History, Agreement, Sum, Reports, Fetch,
--                  Responses and Exchange are about `AddVote`, `TwoThirdsMajority`, `MakeCommit`
--                  and the fetch messages
--   HeightVoteSet  height_vote_set.go; Rounds, Tracking, Adding, Kept, Polkas and Counted are about
--                  `SetRound`, `POLInfo` and `AddVote`
--   Config         config.go; Config/Durations the timeouts of a round
--   Core           bftcore.go and state.go: Core/State the state; Core/Enter and Core/Precommit the
--                  transitions within a height (`enterNewRound`, `enterPropose`, `enterPrevote`,
--                  `enterPrecommit` and their waits); Core/Decide `enterCommit`, `doCommit` and
--                  `updateToAppState`; Core/Votes `addVote` and what follows a vote; Core/Messages
--                  `handleMsg`, `handleTimeout`, `receiveRoutine`, `RecvMsg`, `Start` and `Stop`;
--                  Core/Frames, Locks, Voting, Precommitting, Polka, Proposals, Rounds, NewRound, NextHeight,
--                  Decision and Crashes are about them; Within, Transitions, NextRound, Returning,
--                  Timeouts, Prevotes, NextSound, Reaching, Precommits, Adding, AfterPrevote,
--                  LockFate, Unlocking, Soundness and Progress about the core between two messages,
--                  in any round; Core/Inputs has runs from `Start`, and Ballots, Requests, Runs,
--                  Started and Once are about them
--   StateSync      state_sync.go: the votes of later heights, by which a core catches up; StateSync/Stale
--                  what its votes for a past height do
--   Ticker         ticker.go: the pending timeout, as a relation of steps; Ticker/Order and Ticker/Origin
--                  which timeouts fire, and in what order
--   Times          common/time.go: the weighted median; Times/Median what it is
--   Scenarios      concrete runs, with a committee of four
--
-- How the code is read. A proposed data and a public key are numbers, 0 for the nil data and the
-- empty key; a time is a number of nanoseconds, 0 for the zero time (Times alone has times before
-- 1970, of any size, and wraps what `UnixNano` gives of them); an int64, an int and a duration are
-- integers that wrap on 64 bits. A nil pointer is `none`. A panic (`PanicSanity`, a nil dereference,
-- an index out of range) is the outcome `panic`, which ends the call. A Go map is an association
-- list in the order of insertion, where Go leaves the order open; the votes of a response are
-- therefore spoken of in any order. A shared vote set that the code changes through a pointer is
-- written back where it stands. A mutex makes a method one atomic step, and the core handles one
-- message or timeout at a time. What the core sends, schedules and hands to the application is
-- recorded in its state, the newest first. The committee's answers depend on the commits that it has
-- been handed; a handler reads the clock once. SHA-256, the codec and signatures are arguments.
--
-- Bounds. No definition uses fuel: every loop runs over a list or over a number of rounds that the
-- code fixes before it. Where an operation could overflow, the wrap-around is in the definition. A
-- committee, where a property speaks of one, has a total power of which 64 bits hold the double
-- (`IsCommittee` in Weights): the code computes its thresholds from twice the total.
--
-- Not modelled: logging, printing and the message statistics; the time that a timer takes, so that it
-- may fire at any moment while it runs; the coupling of the core and the ticker, which are two models;
-- the amino codec; the reading of the clock and the helpers for errors and printing of common/; the
-- generated mocks and the tests.
pub mod Base
pub mod Errors
pub mod Message
pub mod Committee
pub mod Weights
pub mod VoteSet
pub mod HeightVoteSet
pub mod Config
pub mod Core
pub mod StateSync
pub mod Ticker
pub mod Times
pub mod Scenarios
