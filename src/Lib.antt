-- ===== src/Lib.antt =====
-- MySuperLedger: a double-entry ledger that is event sourced and replicated by Raft.
--
-- The program has two halves. The ledger (src/app_ledger) takes commands, checks each against its
-- state, and turns an accepted one into an event that it applies and hands to an event store. The
-- replica (src/infra/raft) keeps a log of entries, one per command with its events, in the same order
-- on each node of a group: one leader appends, the followers copy, and an entry is committed when a
-- majority has it. The event store of src/infra/es writes to the replica's log and reads it back.
--
--   Prelude          what the other files share: Boolean tests on numbers, lists measured by numbers,
--                    64-bit words, outcomes of code that may stop the process, association lists
--   Ledger.Domain    src/app_ledger/should_be_generated/domain: Amount, Balance, Account,
--                    AccountMetadata, JournalLine, JournalEntry, with operator+=, operator-=,
--                    applyDebit, applyCredit and isSame
--   Ledger.Machine   src/app_ledger/v2/AppStateMachine.cpp: a `process` and an `apply` for each command
--                    and event (Defs), and src/app_ledger/AppStateMachine.cpp, which composes them
--                    (process_and_apply is processCommandAndApply)
--   Ledger.Loop      src/app_ledger/should_be_generated/domain/CommandProcessLoop.hpp: one command
--                    (process_one is processCommand) and a run of commands; the store is the list of
--                    what persistAsync was given
--   Ledger.Codec     the same values' initWith and encodeTo, AccountTypeUtil and TransactionTypeUtil, and
--                    src/app_ledger/should_be_generated/domain/commands and events: verifyCommand, the
--                    commands' constructors, and the events' encodeToString and decodeFromString
--   Raft.Log         src/infra/raft/storage/InMemoryLog.h, and the partial map from indices to entries
--                    that it stands for (Raft.Log.View)
--   Raft.Disk        src/infra/raft/storage/Segment.cpp (Segment, Files) and SegmentLog.cpp (SegmentLog,
--                    Recovery), the same log in files, with the keys and digests of
--                    src/infra/util/CryptoUtil.cpp (Crypto). Represents relates a log on disk to an
--                    InMemoryLog; Sealing, Holds, Copying, Writing, Cutting and Batch are about one
--                    segment, Chain, Reads, Rolling, Appends, Cuts, Drops and DropsMemory about the
--                    log, Listing, Restart and TwoActive about its start, Runs about sequences of calls
--   Raft.Core        src/infra/raft/v2/RaftCore.cpp and RaftCore.h: State (the record, stepDown),
--                    Replicate (AppendEntries), Vote (RequestVote and elections), Client (client and
--                    sync requests, truncatePrefix), Lead (advanceCommitIndex, leadershipTimeout), Main
--                    (sending, receiveMessage and a round of raftLoopMain)
--   Raft.Safety      the proofs about the core: Votes, Store, Follow and Keep go through the handlers,
--                    Keeps, Steps, Voting, Life, Grants, Election and History through the runs of a
--                    node: Step is an event at a node that takes part in its group, Life has the sync
--                    requests before that too; Quorum, Commit, Prefix and Settle, Settling and Cut,
--                    Match and Accepted, Peers and Writes each state what one duty keeps
--   Store            src/infra/es/store/RaftCommandEventStore.cpp and src/infra/raft/RaftLogStore.cpp:
--                    persistAsync, refresh and detectTransition; Store.Reader is
--                    src/infra/es/store/ReadonlyRaftCommandEventStore.cpp: loading, decrypting and
--                    handing over committed entries, and the wait for a leader to be ready
--
-- State is passed explicitly. A handler that may fail an assertion, read outside a vector or call exit
-- gives an Outcome, `done` or `abort`; assertions are always on, since the build never defines NDEBUG.
-- Replies, requests and answers that a handler sends are lists that it returns. `uint64_t` arithmetic is
-- modulo 2^64 (add64, sub64) and the counters of journal lines are modulo 2^32. Loops over vectors and
-- maps are structural recursion; the loop of getEntries runs on the number of entries it may still
-- take, which is its own bound, so it needs no fuel. `std::sort` of numbers is an insertion sort.
--
-- Parameters stand for what is not in the repository or is input and output: the clock and rand
-- (Readings, or an argument `now`), what RocksDB holds for an id (`persisted`), the size of a message
-- (`byte_size`, which protobuf generates), and the messages generated from the ledger's proto file
-- (Ledger.Codec.Messages: what getters read, and that a setter changes its own field only). Ids of
-- nodes are numbers, and 0 is none. The log on disk takes the serialised form of an entry and SHA-256
-- as fields of an Env, and the position of the key that another reader used last as an argument; a
-- mapped file is a function from places to values, and a write outside it aborts. Its files hold what
-- is in memory, so a start reads what the calls before it wrote, each of them to its end: crashes
-- amid a call are not modelled. The two files of a segment are one SegmentFile. The reader of committed
-- entries takes what OpenSSL deciphers, what a payload parses to, with the decoders, and the id of a
-- command as fields of a Codec; its threads take their steps one at a time, in any order.
--
-- Not modelled: gRPC services and clients, the lock-free queue, RocksDB, encryption of payloads,
-- metrics, logs and configuration, the event store's batching thread, the command and event loops of
-- src/app_util, and control commands. A map whose iteration order matters is an association list in
-- that order.
pub mod Prelude
pub mod Ledger
pub mod Raft
pub mod Store
