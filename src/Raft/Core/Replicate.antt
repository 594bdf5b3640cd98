-- ===== src/Raft/Core/Replicate.antt =====
-- AppendEntries on both sides: building the requests, `handleAppendEntriesRequest` and
-- `handleAppendEntriesResponse`.
use my_super_ledger.Prelude.{
  ℕ, ◌/◌, min, Bool, true, false, not, ◌&&◌, ◌||◌, none, some, List, [], ◌∷◌, Outcome, done, ◌>>=◌,
  ◌>>◌, assert, Map, lookup, insert, nat_eq, ltb, leb, ◌==◌, add64, sub64, length, if◌then◌else◌,
}
use my_super_ledger.Raft.Log.Defs.{LogEntry, Log, append_entries, truncate_suffix}
use my_super_ledger.Raft.Core.State.{
  leader, candidate, syncer, role_code, Peer, new_peer, Core, Readings, Reply,
  update_election_time_point, term_of_log_entry_at, step_down,
}

-- AppendEntries::Request and Response of raft.proto, without the metrics.
pub record AppendRequest : Type 0 where
  pub term : ℕ
  pub leader_id : ℕ
  pub prev_log_index : ℕ
  pub prev_log_term : ℕ
  pub entries : List LogEntry
  pub commit_index : ℕ

pub record AppendResponse : Type 0 where
  pub term : ℕ
  pub success : Bool
  pub id : ℕ
  pub saved_term : ℕ
  pub saved_prev_log_index : ℕ
  pub last_log_index : ℕ
  pub match_index : ℕ

-- grpc::Status
pub data Status : Type 0 where
  ok cancelled : Status

-- What a request handler leaves: the state, the replies to clients, the status and the response.
pub record Handled (R : Type 0) : Type 0 where
  pub core : Core
  pub replies : List Reply
  pub status : Status
  pub response : R

-- The peer that `mPeers[id]` gives; a missing one is made.
unfoldable pub peer_at : ℕ → Map ℕ Peer → Peer
unfolding lookup
peer_at id peers = elim (lookup id peers) [ none ↦ new_peer | some p ↦ p ]

-- `logIsOk` of `handleAppendEntriesRequest`; the term is read only inside the log.
unfoldable pub log_is_ok : AppendRequest → Log → Outcome Bool
unfolding term_of_log_entry_at
log_is_ok req l =
    if ltb req.prev_log_index l.first_index
    then done true
    else if leb req.prev_log_index l.last_index
    then (do term ← term_of_log_entry_at req.prev_log_index l; done (term == req.prev_log_term))
    else done false

-- What becomes of one entry of the request.
pub data Verdict : Type 0 where
  skip : Verdict
  keep : Log → Verdict

-- The body of the loop over the entries, after the check for gaps.
unfoldable pub judge : ℕ → LogEntry → Log → Outcome Verdict
unfolding term_of_log_entry_at truncate_suffix
judge commit e l =
    if ltb e.index l.first_index
    then done skip
    else if leb e.index l.last_index
    then (do
      term ← term_of_log_entry_at e.index l
      if e.term == term
          then done skip
          else (do assert (ltb commit e.index); done (keep (truncate_suffix (sub64 e.index 1) l))))
    else done (keep l)

abbrev pub accept_next :
    LogEntry → Log → (Log → Outcome (Log × List LogEntry)) → Verdict → Outcome (Log × List LogEntry)
accept_next e l rest skip = rest l
accept_next e l rest (keep l') = do (l'', kept) ← rest l'; done (l'', e ∷ kept)

-- The loop: it drops the entries that are there, cuts off a conflicting end, and gathers the rest.
unfoldable pub accept_entries : ℕ → ℕ → List LogEntry → Log → Outcome (Log × List LogEntry)
unfolding judge
accept_entries commit index [] l = done (l, [])
accept_entries commit index (e ∷ es) l = do
  assert (e.index == add64 index 1)
  v ← judge commit e l
  accept_next e l (accept_entries commit (add64 index 1) es) v

-- `assert(mLog->appendEntries(entries))`
unfoldable pub append_all : List LogEntry → Log → Outcome Log
unfolding append_entries
append_all es l = let (appended, l') = append_entries es l in do assert appended; done l'

-- The end of `handleAppendEntriesRequest`, for a log that is OK.
unfoldable pub store_entries : AppendRequest → Core → Outcome Core
unfolding accept_entries append_all
store_entries req s = do
  (l, kept) ← accept_entries s.commit_index req.prev_log_index req.entries s.log
  l' ← append_all kept l
  if ltb s.commit_index req.commit_index
      then (do
        assert (leb req.commit_index l'.last_index)
        done (record s { log = l'; commit_index = req.commit_index }))
      else done (record s { log = l' })

-- The response while nothing is accepted.
abbrev pub refusal : AppendRequest → ℕ → Core → AppendResponse
refusal req term s = record {
  term = term;
  success = false;
  id = s.self_id;
  saved_term = req.term;
  saved_prev_log_index = req.prev_log_index;
  last_log_index = s.log.last_index;
  match_index = 0;
}

-- `if (!mLeaderId) … else assert(mLeaderId == request.leader_id())`
unfoldable pub hail : ℕ → Core → Outcome Core
hail id s =
    if s.leader_id == 0
    then done (record s { leader_id = id })
    else (do assert (s.leader_id == id); done s)

-- The role and the term, before the request is looked at further.
unfoldable pub yield_to : Readings → ℕ → Core → Outcome (Core × List Reply)
unfolding step_down
yield_to r term s =
    if ltb s.log.current_term term
      || (term == s.log.current_term && role_code s.role == role_code candidate)
    then step_down r term s
    else done (s, [])

-- The answers to the leader: `s` is the node before the call, `n` the node at the answer.
abbrev pub rejected : AppendRequest → List Reply → Core → Core → Handled AppendResponse
rejected req replies s n = record {
  core = n;
  replies = replies;
  status = ok;
  response = refusal req req.term s;
}

abbrev pub accepted : Readings → AppendRequest → List Reply → Core → Core → Handled AppendResponse
accepted r req replies s n = record {
  core = update_election_time_point r 2 2 n;
  replies = replies;
  status = ok;
  response = record {
    term = req.term;
    success = true;
    id = s.self_id;
    saved_term = req.term;
    saved_prev_log_index = req.prev_log_index;
    last_log_index = n.log.last_index;
    match_index = add64 req.prev_log_index (length req.entries);
  };
}

unfoldable pub answer_leader :
    Readings → AppendRequest → List Reply → Core → Core → Bool → Outcome (Handled AppendResponse)
unfolding store_entries update_election_time_point
answer_leader r req replies s n false = done (rejected req replies s n)
answer_leader r req replies s n true = do
  n' ← store_entries req n
  done (accepted r req replies s n')

-- The requester is the leader of its term, and this node follows it.
unfoldable pub follow_leader : Readings → AppendRequest → Core → Outcome (Handled AppendResponse)
unfolding yield_to hail update_election_time_point log_is_ok answer_leader
follow_leader r req s = do
  (s₁, replies) ← yield_to r req.term s
  s₂ ← hail req.leader_id (update_election_time_point r 1 1 s₁)
  fits ← log_is_ok req s₂.log
  answer_leader r req replies s s₂ fits

unfoldable pub handle_append_entries_request :
    Readings → AppendRequest → Core → Outcome (Handled AppendResponse)
unfolding follow_leader
handle_append_entries_request r req s =
    if ltb req.term s.log.current_term
    then done (record {
      core = s;
      replies = [];
      status = ok;
      response = refusal req s.log.current_term s;
    })
    else if role_code s.role == role_code syncer
    then done
        (record { core = s; replies = []; status = cancelled; response = refusal req req.term s })
    else follow_leader r req s

-- The success branch of `handleAppendEntriesResponse`.
unfoldable pub advance_peer : AppendResponse → Peer → Outcome Peer
advance_peer resp p = do
  assert (leb p.match_index resp.match_index)
  done (record p {
    match_index = resp.match_index;
    next_index = add64 resp.match_index 1;
    suppress_bulk_data = false;
  })

-- Its other branch: `nextIndex` steps back.
unfoldable pub back_off : ℕ → AppendResponse → Peer → Outcome Peer
back_off max_decr resp p = do
  assert (leb p.match_index resp.last_log_index)
  assert (ltb (add64 p.match_index 1) p.next_index)
  if ltb (add64 resp.last_log_index 1) p.next_index
      then done (record p { next_index = add64 resp.last_log_index 1 })
      else done (record p {
        next_index = sub64 p.next_index (min (sub64 p.next_index p.match_index / 2) max_decr);
      })

unfoldable pub handle_append_entries_response :
    Readings → AppendResponse → Core → Outcome (Core × List Reply)
unfolding peer_at advance_peer back_off insert
handle_append_entries_response r resp s =
    if not (s.log.current_term == resp.saved_term) then done (s, []) else (do
      assert (role_code s.role == role_code leader)
      if ltb s.log.current_term resp.term
          then step_down r resp.term s
          else (let p = peer_at resp.id s.peers in
              if not (resp.saved_prev_log_index == sub64 p.next_index 1)
              then done (record s { peers = insert resp.id p s.peers }, [])
              else (do
                p' ← (if resp.success then advance_peer resp p else back_off s.max_decr_step resp p)
                done (record s { peers = insert resp.id p' s.peers }, []))))
