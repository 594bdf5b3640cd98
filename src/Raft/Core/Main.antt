-- ===== src/Raft/Core/Main.antt =====
-- The main loop: `appendEntries`, `requestVote`, `receiveMessage` and one round of `raftLoopMain`.
-- What the node sends and answers comes back as a list of outputs; the RPC clients and the server,
-- which carry it, are gRPC.
use my_super_ledger.Prelude.{
  ℕ, ◌+◌, ◌*◌, ◌-◌, ◌^◌, min, max, Bool, true, false, not, ◌||◌, Option, none, some, List, [], ◌∷◌,
  ◌++◌, map, Outcome, done, abort, ◌>>=◌, Map, insert, nat_eq, ltb, ◌==◌, add64, sub64, length,
  if◌then◌else◌,
}
use my_super_ledger.Raft.Log.Defs.{LogEntry, get_entries}
use my_super_ledger.Raft.Core.State.{
  leader, candidate, role_code, Peer, Core, Readings, Reply, term_of_log_entry_at,
  heart_beat_interval_in_millis,
}
use my_super_ledger.Raft.Core.Replicate.{
  AppendRequest, AppendResponse, Status, peer_at, handle_append_entries_request,
  handle_append_entries_response,
}
use my_super_ledger.Raft.Core.Vote.{
  VoteRequest, VoteResponse, handle_request_vote_request, handle_request_vote_response,
  election_timeout, become_leader,
}
use my_super_ledger.Raft.Core.Client.{
  ClientRequest, SyncRequest, handle_client_requests, handle_sync_request,
}
use my_super_ledger.Raft.Core.Lead.{advance_commit_index, leadership_timeout}

pub data Output : Type 0 where
  replied : Reply → Output
  sent_append : ℕ → AppendRequest → Output
  sent_vote : ℕ → VoteRequest → Output
  answered_append : Status → AppendResponse → Output
  answered_vote : Status → VoteResponse → Output

-- The entries that a request to the peer carries.
unfoldable pub batch_for : (LogEntry → ℕ) → Core → Peer → Outcome (List LogEntry)
unfolding get_entries
batch_for byte_size s p =
    if p.suppress_bulk_data
    then done []
    else get_entries byte_size p.next_index s.max_len_in_bytes s.max_batch_size s.log

unfoldable pub build_append : (LogEntry → ℕ) → Core → Peer → Outcome AppendRequest
unfolding batch_for term_of_log_entry_at
build_append byte_size s p = do
  prev_term ← term_of_log_entry_at (sub64 p.next_index 1) s.log
  entries ← batch_for byte_size s p
  done (record {
    term = s.log.current_term;
    leader_id = s.self_id;
    prev_log_index = sub64 p.next_index 1;
    prev_log_term = prev_term;
    entries = entries;
    commit_index = min s.commit_index (add64 (sub64 p.next_index 1) (length entries));
  })

-- The switch is turned off until a response comes.
abbrev pub switch_off : ℕ → Peer → Peer
switch_off now p = record p { next_request_time = 2 ^ 64 - 1; last_request_time = now }

unfoldable pub append_to_peers :
    (LogEntry → ℕ) → Readings → ℕ → Core → Map ℕ Peer → Outcome (Map ℕ Peer × List Output)
unfolding build_append
append_to_peers byte_size r n s [] = done ([], [])
append_to_peers byte_size r n s ((id, p) ∷ rest) = do
  (others, outputs) ← append_to_peers byte_size r (n + 2) s rest
  if ltb (r.now n) p.next_request_time then done ((id, p) ∷ others, outputs) else (do
    request ← build_append byte_size s p
    done ((id, switch_off (r.now (n + 1)) p) ∷ others, sent_append p.id request ∷ outputs))

unfoldable pub append_entries_round :
    (LogEntry → ℕ) → Readings → Core → Outcome (Core × List Output)
unfolding append_to_peers
append_entries_round byte_size r s =
    if not (role_code s.role == role_code leader) then done (s, []) else (do
      (peers, outputs) ← append_to_peers byte_size r 0 s s.peers
      done (record s { peers = peers }, outputs))

unfoldable pub vote_from_peers :
    Readings → ℕ → Core → Map ℕ Peer → Outcome (Map ℕ Peer × List Output)
unfolding term_of_log_entry_at
vote_from_peers r n s [] = done ([], [])
vote_from_peers r n s ((id, p) ∷ rest) = do
  (others, outputs) ← vote_from_peers r (n + 2) s rest
  if p.request_vote_done || ltb (r.now n) p.next_request_time
      then done ((id, p) ∷ others, outputs)
      else (do
        last_term ← term_of_log_entry_at s.log.last_index s.log
        done (
          (id, switch_off (r.now (n + 1)) p) ∷ others,
          sent_vote p.id (record {
            term = s.log.current_term;
            candidate_id = s.self_id;
            last_log_index = s.log.last_index;
            last_log_term = last_term;
          })
              ∷ outputs,
        ))

unfoldable pub request_vote_round : Readings → Core → Outcome (Core × List Output)
unfolding vote_from_peers
request_vote_round r s = if not (role_code s.role == role_code candidate) then done (s, []) else (do
  (peers, outputs) ← vote_from_peers r 0 s s.peers
  done (record s { peers = peers }, outputs))

-- RaftEventBase: a message of one of the two queues. A response carries the id of the peer and
-- whether the call went through.
pub data Message : Type 0 where
  append_request : AppendRequest → Message
  append_response : ℕ → Bool → AppendResponse → Message
  vote_request : VoteRequest → Message
  vote_response : ℕ → Bool → VoteResponse → Message
  client_requests : List ClientRequest → Message
  sync_request : SyncRequest → Message

pub record Queues : Type 0 where
  pub ae_rv : List Message
  pub client : List Message

-- The queue of Raft's own messages goes first.
unfoldable pub dequeue : List Message → List Message → Option Message × Queues
dequeue (m ∷ ms) cs = (some m, record { ae_rv = ms; client = cs })
dequeue [] (c ∷ cs) = (some c, record { ae_rv = []; client = cs })
dequeue [] [] = (none, record { ae_rv = []; client = [] })

-- The peer after a response: its switch is on again, at the earliest one heartbeat after the
-- request; a response that came through is noted.
unfoldable pub switch_on : Readings → Bool → Peer → Peer
switch_on r true p = record p {
  next_request_time =
      max (add64 p.last_request_time (heart_beat_interval_in_millis * 1000000)) (r.now 0);
  last_response_time = r.now 1;
}
switch_on r false p = record p {
  next_request_time =
      max (add64 p.last_request_time (heart_beat_interval_in_millis * 1000000)) (r.now 0);
}

abbrev pub note_response : Readings → ℕ → Bool → Core → Core
note_response r id came s = record s {
  peers = insert id (switch_on r came (peer_at id s.peers)) s.peers;
}

-- The readings of the handler behind the switch.
abbrev pub later : Readings → Readings
later r = record { now = λ n. r.now (n + 2); rand = r.rand }

abbrev pub with_replies : Outcome (Core × List Reply) → Outcome (Core × List Output)
with_replies (done (s, replies)) = done (s, map replied replies)
with_replies abort = abort

unfoldable pub handle_message : Readings → Message → Core → Outcome (Core × List Output)
unfolding handle_append_entries_request handle_append_entries_response handle_request_vote_request
    handle_request_vote_response handle_client_requests handle_sync_request switch_on peer_at
handle_message r (append_request req) s = do
  h ← handle_append_entries_request r req s
  done (h.core, map replied h.replies ++ answered_append h.status h.response ∷ [])
handle_message r (append_response id true resp) s =
    with_replies (handle_append_entries_response (later r) resp (note_response r id true s))
handle_message r (append_response id false resp) s =
    let p = record (switch_on r false (peer_at id s.peers)) { suppress_bulk_data = true } in
    done (record s { peers = insert id p s.peers }, [])
handle_message r (vote_request req) s = do
  h ← handle_request_vote_request r req s
  done (h.core, map replied h.replies ++ answered_vote h.status h.response ∷ [])
handle_message r (vote_response id true resp) s =
    with_replies (handle_request_vote_response (later r) resp (note_response r id true s))
handle_message r (vote_response id false resp) s = done (note_response r id false s, [])
handle_message r (client_requests cs) s = with_replies (done (handle_client_requests cs s))
handle_message r (sync_request req) s = do s' ← handle_sync_request req s; done (s', [])

-- `receiveMessage`, at the message that the queues give.
unfoldable pub receive_message : Readings → Option Message → Core → Outcome (Core × List Output)
unfolding handle_message
receive_message r none s = done (s, [])
receive_message r (some m) s = handle_message r m s

-- One round of `raftLoopMain`; `rs` gives each step its readings.
unfoldable pub raft_loop_once :
    (LogEntry → ℕ) → (ℕ → Readings) → Option Message → Core → Outcome (Core × List Output)
unfolding append_entries_round request_vote_round receive_message advance_commit_index become_leader
    election_timeout leadership_timeout
raft_loop_once byte_size rs m s = do
  (s₁, o₁) ← append_entries_round byte_size (rs 0) s
  (s₂, o₂) ← request_vote_round (rs 1) s₁
  (s₃, o₃) ← receive_message (rs 2) m s₂
  (s₄, o₄) ← with_replies (advance_commit_index s₃)
  s₅ ← become_leader (rs 3) s₄
  let s₆ = election_timeout (rs 4) s₅
  (s₇, o₅) ← with_replies (leadership_timeout (rs 5) s₆)
  done (s₇, o₁ ++ o₂ ++ o₃ ++ o₄ ++ o₅)
