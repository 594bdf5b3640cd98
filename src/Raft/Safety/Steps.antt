-- ===== src/Raft/Safety/Steps.antt =====
-- The runs of a voting node, and what every run keeps.
use my_super_ledger.Prelude.{ℕ, ◌+◌, ◌<◌, ◌^◌, ◌≡◌, List, done}
use mathlib.Core.Path.{subst}
use my_super_ledger.Prelude.{Map, sym, ◌==◌, false, arith, done-injective}
use my_super_ledger.Raft.Core.State.{syncer, role_code, Core, Peer, Readings, Reply}
use my_super_ledger.Raft.Core.Replicate.{
  AppendRequest, AppendResponse, Handled, handle_append_entries_request,
  handle_append_entries_response,
}
use my_super_ledger.Raft.Core.Vote.{
  VoteRequest, VoteResponse, handle_request_vote_request, handle_request_vote_response,
  election_timeout, become_leader,
}
use my_super_ledger.Raft.Core.Client.{
  ClientRequest, SyncRequest, handle_client_requests, handle_sync_request, truncate_prefix,
}
use my_super_ledger.Raft.Core.Lead.{advance_commit_index, leadership_timeout}
use my_super_ledger.Raft.Log.Defs as Log
use my_super_ledger.Raft.Log.Defs.{LogEntry}
use my_super_ledger.Raft.Core.Main.{Output, append_entries_round, request_vote_round}
use my_super_ledger.Raft.Safety.Keep.{append_round-log, vote_round-log}
use my_super_ledger.Raft.Safety.Votes.{VoteKept, VoteKept-refl, VoteKept-trans}
use my_super_ledger.Raft.Safety.Follow.{append_request-VoteKept}
use my_super_ledger.Raft.Safety.Keep.{
  append_response-VoteKept, vote_request-VoteKept, vote_response-VoteKept, client_requests-VoteKept,
  advance-log, become_leader-VoteKept, election-VoteKept, leadership-VoteKept,
}

-- One event at a node that takes part in its group: those of the main loop, and a cut of the log's
-- prefix, which comes from the node's administration. The node has left the syncing role when a
-- sync request is in, and its term is below 2^64 - 1 when it stands for election.
pub data Step : Core → Core → Type 0 where
  append_request_in :
      (r : Readings) (req : AppendRequest) (s : Core) (h : Handled AppendResponse)
      → handle_append_entries_request r req s ≡ done h
      → Step s h.core
  append_response_in :
      (r : Readings) (resp : AppendResponse) (s s' : Core) (replies : List Reply)
      → handle_append_entries_response r resp s ≡ done (s', replies)
      → Step s s'
  vote_request_in :
      (r : Readings) (req : VoteRequest) (s : Core) (h : Handled VoteResponse)
      → handle_request_vote_request r req s ≡ done h
      → Step s h.core
  vote_response_in :
      (r : Readings) (resp : VoteResponse) (s s' : Core) (replies : List Reply)
      → handle_request_vote_response r resp s ≡ done (s', replies)
      → Step s s'
  client_requests_in : (cs : List ClientRequest) (s : Core) → Step s (handle_client_requests cs s).0
  election_due :
      (r : Readings) (s : Core) → s.log.current_term + 1 < 2 ^ 64 → Step s (election_timeout r s)
  leadership_due :
      (r : Readings) (s s' : Core) (replies : List Reply)
      → leadership_timeout r s ≡ done (s', replies)
      → Step s s'
  votes_counted : (r : Readings) (s s' : Core) → become_leader r s ≡ done s' → Step s s'
  commit_advanced :
      (s s' : Core) (replies : List Reply) → advance_commit_index s ≡ done (s', replies) → Step s s'
  appends_sent :
      (byte_size : LogEntry → ℕ) (r : Readings) (s s' : Core) (outputs : List Output)
      → append_entries_round byte_size r s ≡ done (s', outputs)
      → Step s s'
  votes_requested :
      (r : Readings) (s s' : Core) (outputs : List Output)
      → request_vote_round r s ≡ done (s', outputs)
      → Step s s'
  sync_request_in :
      (req : SyncRequest) (s s' : Core)
      → (role_code s.role == role_code syncer) ≡ false
      → handle_sync_request req s ≡ done s'
      → Step s s'
  -- what `receiveMessage` notes of a peer before it calls a handler
  peers_noted : (peers : Map ℕ Peer) (s : Core) → Step s (record s { peers = peers })
  prefix_truncated : (kept : ℕ) (s s' : Core) → truncate_prefix kept s ≡ done s' → Step s s'

pub data Steps : Core → Core → Type 0 where
  here : {s : Core} → Steps s s
  then_step : {s t u : Core} → Steps s t → Step t u → Steps s u

truncate_prefix-VoteKept :
    (kept : ℕ) (s s' : Core) → truncate_prefix kept s ≡ done s' → VoteKept s.log s'.log
unfolding truncate_prefix Log.truncate_prefix
truncate_prefix-VoteKept kept s s' e = record { term = ground arith; vote = λ _ _. ground arith }

-- A node that takes part leaves a sync request aside.
pub sync_ignored :
    (req : SyncRequest) (s s' : Core)
    → (role_code s.role == role_code syncer) ≡ false
    → handle_sync_request req s ≡ done s'
    → s ≡ s'
unfolding handle_sync_request
sync_ignored req s s' voting e = done-injective (rw voting at e)

Step-VoteKept : {s t : Core} → Step s t → VoteKept s.log t.log
Step-VoteKept (append_request_in r req s h e) = append_request-VoteKept r req s h e
Step-VoteKept (append_response_in r resp s s' replies e) =
    append_response-VoteKept r resp s s' replies e
Step-VoteKept (vote_request_in r req s h e) = vote_request-VoteKept r req s h e
Step-VoteKept (vote_response_in r resp s s' replies e) =
    vote_response-VoteKept r resp s s' replies e
Step-VoteKept (client_requests_in cs s) = client_requests-VoteKept cs s
Step-VoteKept (election_due r s b) = election-VoteKept r s b
Step-VoteKept (leadership_due r s s' replies e) = leadership-VoteKept r s s' replies e
Step-VoteKept (votes_counted r s s' e) = become_leader-VoteKept r s s' e
Step-VoteKept (commit_advanced s s' replies e) =
    subst (VoteKept s.log) (sym (advance-log s s' replies e)) (VoteKept-refl s.log)
Step-VoteKept (appends_sent byte_size r s s' outputs e) =
    subst (VoteKept s.log) (sym (append_round-log byte_size r s s' outputs e)) (VoteKept-refl s.log)
Step-VoteKept (votes_requested r s s' outputs e) =
    subst (VoteKept s.log) (sym (vote_round-log r s s' outputs e)) (VoteKept-refl s.log)
Step-VoteKept (sync_request_in req s s' voting e) =
    subst (λ x. VoteKept s.log x.log) (sync_ignored req s s' voting e) (VoteKept-refl s.log)
Step-VoteKept (peers_noted peers s) = VoteKept-refl s.log
Step-VoteKept (prefix_truncated kept s s' e) = truncate_prefix-VoteKept kept s s' e

-- Along every run of a node that takes part in its group, and stands for election only at a term
-- below 2^64 - 1, the term never falls, and a vote given in a term stays while the term does.
pub Steps-VoteKept : {s t : Core} → Steps s t → VoteKept s.log t.log
Steps-VoteKept (here {s}) = VoteKept-refl s.log
Steps-VoteKept (then_step run step) = VoteKept-trans (Steps-VoteKept run) (Step-VoteKept step)
