-- ===== src/Raft/Safety/Voting.antt =====
-- A node that has left the syncing role never takes it up again.
use mathlib.Core.Path.{subst}
use my_super_ledger.Prelude.{
  ℕ, ◌+◌, ◌*◌, not, ◌||◌, Bool, true, false, ◌≡◌, List, [], ◌∷◌, done, >>=-eq-done, done-injective,
  arith, Bool-cases, inl, inr, ltb, ◌==◌, add64, sub64,
}
use my_super_ledger.Raft.Log.Defs.{LogEntry}
use my_super_ledger.Raft.Core.State.{
  leader, candidate, syncer, role_code, Core, Readings, Reply, step_down, lower_to_follower, retire,
  update_election_time_point, term_of_log_entry_at, max_election_timeout_in_millis,
}
use my_super_ledger.Raft.Core.Replicate.{
  AppendRequest, AppendResponse, Handled, handle_append_entries_request,
  handle_append_entries_response, yield_to, hail, answer_leader, store_entries, accept_entries,
  append_all,
}
use my_super_ledger.Raft.Core.Vote.{
  VoteRequest, VoteResponse, handle_request_vote_request, handle_request_vote_response, decide_vote,
  election_timeout, become_leader,
}
use my_super_ledger.Raft.Core.Client.{ClientRequest, handle_client_requests, truncate_prefix}
use my_super_ledger.Raft.Core.Lead.{
  majority_value, response_times, leadership_timeout, advance_commit_index,
}
use my_super_ledger.Raft.Core.Main.{
  Output, append_entries_round, append_to_peers, request_vote_round, vote_from_peers,
}
use my_super_ledger.Raft.Safety.Follow.{follow_leader_inv}
use my_super_ledger.Raft.Safety.Steps.{
  Step, append_request_in, append_response_in, vote_request_in, vote_response_in,
  client_requests_in, election_due, leadership_due, votes_counted, commit_advanced, appends_sent,
  votes_requested, sync_request_in, peers_noted, prefix_truncated, sync_ignored,
}

-- The node is no Syncer.
abbrev pub TakesPart : Core → Type 0
TakesPart s = (role_code s.role == role_code syncer) ≡ false

step_down-TakesPart :
    (r : Readings) (t : ℕ) (s s' : Core) (replies : List Reply)
    → step_down r t s ≡ done (s', replies)
    → TakesPart s
    → TakesPart s'
unfolding step_down lower_to_follower retire update_election_time_point
step_down-TakesPart r t s s' replies h p = ground arith

append_response-TakesPart :
    (r : Readings) (resp : AppendResponse) (s s' : Core) (replies : List Reply)
    → handle_append_entries_response r resp s ≡ done (s', replies)
    → TakesPart s
    → TakesPart s'
unfolding handle_append_entries_response
append_response-TakesPart r resp s s' replies h p =
    elim (Bool-cases (s.log.current_term == resp.saved_term)) [
      | inr other ↦ ground arith
      | inl mine ↦ elim (Bool-cases (role_code s.role == role_code leader)) [
        | inr no_leader ↦ absurd (ground arith)
        | inl leading ↦ elim (Bool-cases (ltb s.log.current_term resp.term)) [
          | inl older ↦
              step_down-TakesPart r resp.term s s' replies (rw (mine, leading, older) at h) p
          | inr newest ↦ ground arith
        ]
      ]
    ]

vote_response-TakesPart :
    (r : Readings) (resp : VoteResponse) (s s' : Core) (replies : List Reply)
    → handle_request_vote_response r resp s ≡ done (s', replies)
    → TakesPart s
    → TakesPart s'
unfolding handle_request_vote_response
vote_response-TakesPart r resp s s' replies h p =
    elim (Bool-cases (
      not (s.log.current_term == resp.saved_term)
      || not (role_code s.role == role_code candidate))) [
        | inl other ↦ ground arith
        | inr mine ↦ elim (Bool-cases (ltb s.log.current_term resp.term)) [
          | inl older ↦ step_down-TakesPart r resp.term s s' replies (rw (mine, older) at h) p
          | inr newest ↦ ground arith
        ]
      ]

decide_vote-TakesPart :
    (r : Readings) (req : VoteRequest) (replies : List Reply) (s : Core) (h : Handled VoteResponse)
    → decide_vote r req replies s ≡ done h
    → TakesPart s
    → TakesPart h.core
unfolding decide_vote
decide_vote-TakesPart r req replies s h e p =
    let (last_term, read, e₁) = >>=-eq-done (term_of_log_entry_at s.log.last_index s.log) _ e in
    ground arith

vote_request-TakesPart :
    (r : Readings) (req : VoteRequest) (s : Core) (h : Handled VoteResponse)
    → handle_request_vote_request r req s ≡ done h
    → TakesPart s
    → TakesPart h.core
unfolding handle_request_vote_request
vote_request-TakesPart r req s h e p = elim (Bool-cases (ltb req.term s.log.current_term)) [
  | inl stale ↦ ground arith
  | inr current ↦ elim (Bool-cases (ltb s.log.current_term req.term)) [
    | inr same ↦ decide_vote-TakesPart r req [] s h (rw (p, current, same) at e) p
    | inl newer ↦
        let (q, stepped, e₁) =
          >>=-eq-done (step_down r req.term s) _ (rw (p, current, newer) at e) in
        decide_vote-TakesPart r req q.1 q.0 h e₁
          (step_down-TakesPart r req.term s q.0 q.1 stepped p)
  ]
]

leadership-TakesPart :
    (r : Readings) (s s' : Core) (replies : List Reply)
    → leadership_timeout r s ≡ done (s', replies)
    → TakesPart s
    → TakesPart s'
unfolding leadership_timeout
leadership-TakesPart r s s' replies h p = elim (Bool-cases (role_code s.role == role_code leader)) [
  | inr other ↦ ground arith
  | inl leading ↦
      let (heard, read, h₁) =
        >>=-eq-done (majority_value (r.now 0 ∷ response_times s.peers)) _ (rw leading at h) in
      elim (Bool-cases (ltb (sub64 (r.now 0) heard) (max_election_timeout_in_millis * 1000000))) [
        | inl recent ↦ ground arith
        | inr silent ↦
            step_down-TakesPart (record { now = λ n. r.now (n + 1); rand = r.rand })
              (add64 s.log.current_term 1) s s' replies (rw silent at h₁) p
      ]
]

store_entries-TakesPart :
    (req : AppendRequest) (s s' : Core) → store_entries req s ≡ done s' → TakesPart s → TakesPart s'
unfolding store_entries
store_entries-TakesPart req s s' h p =
    let ((m, kept), _, h₁) =
      >>=-eq-done (accept_entries s.commit_index req.prev_log_index req.entries s.log) _ h in
    let (l', _, h₂) = >>=-eq-done (append_all kept m) _ h₁ in ground arith

answer_leader-TakesPart :
    (r : Readings) (req : AppendRequest) (replies : List Reply) (s n : Core) (fits : Bool)
    (h : Handled AppendResponse)
    → answer_leader r req replies s n fits ≡ done h
    → TakesPart n
    → TakesPart h.core
unfolding answer_leader update_election_time_point
answer_leader-TakesPart r req replies s n false h e p =
    subst (λ (x : Handled AppendResponse). TakesPart x.core) (done-injective e) p
answer_leader-TakesPart r req replies s n true h e p =
    let (n', stored, e₁) = >>=-eq-done (store_entries req n) _ e in
    subst (λ (x : Handled AppendResponse). TakesPart x.core) (done-injective e₁)
      (store_entries-TakesPart req n n' stored p)

yield_to-TakesPart :
    (r : Readings) (t : ℕ) (s s' : Core) (replies : List Reply)
    → yield_to r t s ≡ done (s', replies)
    → TakesPart s
    → TakesPart s'
unfolding yield_to step_down lower_to_follower retire update_election_time_point
yield_to-TakesPart r t s s' replies h p = ground arith

hail-TakesPart :
    (r : Readings) (id : ℕ) (s s' : Core)
    → hail id (update_election_time_point r 1 1 s) ≡ done s'
    → TakesPart s
    → TakesPart s'
unfolding hail update_election_time_point
hail-TakesPart r id s s' h p = ground arith

append_request-TakesPart :
    (r : Readings) (req : AppendRequest) (s : Core) (h : Handled AppendResponse)
    → handle_append_entries_request r req s ≡ done h
    → TakesPart s
    → TakesPart h.core
unfolding handle_append_entries_request
append_request-TakesPart r req s h e p = elim (Bool-cases (ltb req.term s.log.current_term)) [
  | inl stale ↦
      subst (λ (x : Handled AppendResponse). TakesPart x.core) (done-injective (rw stale at e)) p
  | inr current ↦
      let f = follow_leader_inv r req s h (rw (current, p) at e) in
      answer_leader-TakesPart r req f.replies s f.hailed f.fits h f.answer_step (
        hail-TakesPart r req.leader_id f.yielded f.hailed f.hail_step
          (yield_to-TakesPart r req.term s f.yielded f.replies f.yield_step p))
]

append_round-TakesPart :
    (byte_size : LogEntry → ℕ) (r : Readings) (s s' : Core) (outputs : List Output)
    → append_entries_round byte_size r s ≡ done (s', outputs)
    → TakesPart s
    → TakesPart s'
unfolding append_entries_round
append_round-TakesPart byte_size r s s' outputs h p =
    elim (Bool-cases (role_code s.role == role_code leader)) [
      | inr other ↦ ground arith
      | inl leads ↦
          let (q, sent, h₁) =
            >>=-eq-done (append_to_peers byte_size r 0 s s.peers) _ (rw leads at h) in
          subst (λ (x : Core × List Output). TakesPart x.0) (done-injective h₁) p
    ]

vote_round-TakesPart :
    (r : Readings) (s s' : Core) (outputs : List Output)
    → request_vote_round r s ≡ done (s', outputs)
    → TakesPart s
    → TakesPart s'
unfolding request_vote_round
vote_round-TakesPart r s s' outputs h p =
    elim (Bool-cases (role_code s.role == role_code candidate)) [
      | inr other ↦ ground arith
      | inl stands ↦
          let (q, sent, h₁) = >>=-eq-done (vote_from_peers r 0 s s.peers) _ (rw stands at h) in
          subst (λ (x : Core × List Output). TakesPart x.0) (done-injective h₁) p
    ]

client_requests-TakesPart :
    (cs : List ClientRequest) (s : Core) → TakesPart s → TakesPart (handle_client_requests cs s).0
unfolding handle_client_requests
client_requests-TakesPart cs s p = ground arith

election-TakesPart : (r : Readings) (s : Core) → TakesPart s → TakesPart (election_timeout r s)
unfolding election_timeout
election-TakesPart r s p = ground arith

become_leader-TakesPart :
    (r : Readings) (s s' : Core) → become_leader r s ≡ done s' → TakesPart s → TakesPart s'
unfolding become_leader
become_leader-TakesPart r s s' h p = ground arith

advance-TakesPart :
    (s s' : Core) (replies : List Reply)
    → advance_commit_index s ≡ done (s', replies)
    → TakesPart s
    → TakesPart s'
unfolding advance_commit_index
advance-TakesPart s s' replies h p = ground arith

truncate_prefix-TakesPart :
    (kept : ℕ) (s s' : Core) → truncate_prefix kept s ≡ done s' → TakesPart s → TakesPart s'
unfolding truncate_prefix
truncate_prefix-TakesPart kept s s' h p = ground arith

pub Step-TakesPart : {s t : Core} → Step s t → TakesPart s → TakesPart t
Step-TakesPart (append_request_in r req s h e) = append_request-TakesPart r req s h e
Step-TakesPart (append_response_in r resp s s' replies e) =
    append_response-TakesPart r resp s s' replies e
Step-TakesPart (vote_request_in r req s h e) = vote_request-TakesPart r req s h e
Step-TakesPart (vote_response_in r resp s s' replies e) =
    vote_response-TakesPart r resp s s' replies e
Step-TakesPart (client_requests_in cs s) = client_requests-TakesPart cs s
Step-TakesPart (election_due r s _) = election-TakesPart r s
Step-TakesPart (leadership_due r s s' replies e) = leadership-TakesPart r s s' replies e
Step-TakesPart (votes_counted r s s' e) = become_leader-TakesPart r s s' e
Step-TakesPart (commit_advanced s s' replies e) = advance-TakesPart s s' replies e
Step-TakesPart (appends_sent byte_size r s s' outputs e) =
    append_round-TakesPart byte_size r s s' outputs e
Step-TakesPart (votes_requested r s s' outputs e) = vote_round-TakesPart r s s' outputs e
Step-TakesPart (sync_request_in req s s' voting e) =
    λ p. subst TakesPart (sync_ignored req s s' voting e) p
Step-TakesPart (peers_noted peers s) = λ p. p
Step-TakesPart (prefix_truncated kept s s' e) = truncate_prefix-TakesPart kept s s' e
