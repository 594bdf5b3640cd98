-- ===== src/Raft/Safety/Keep.antt =====
-- The other handlers keep the term and the vote in order.
use mathlib.Core.Path.{subst}
use my_super_ledger.Prelude.{
  ℕ, done-injective, ap, ◌*◌, sub64, ◌+◌, ◌<◌, ◌^◌, not, ◌||◌, ◌≡◌, sym, List, [], ◌∷◌, done,
  >>=-eq-done, arith, Bool-cases, inl, inr, ltb, ◌==◌, add64,
}
use my_super_ledger.Raft.Core.State.{
  max_election_timeout_in_millis, leader, candidate, syncer, role_code, Core, Readings, Reply,
  step_down, term_of_log_entry_at,
}
use my_super_ledger.Raft.Core.Replicate.{AppendResponse, Handled, handle_append_entries_response}
use my_super_ledger.Raft.Core.Vote.{
  VoteRequest, VoteResponse, decide_vote, handle_request_vote_request, handle_request_vote_response,
  election_timeout, become_leader,
}
use my_super_ledger.Raft.Core.Client.{ClientRequest, select_requests, handle_client_requests}
use my_super_ledger.Raft.Core.Lead.{
  majority_value, advance_commit_index, leadership_timeout, response_times,
}
use my_super_ledger.Raft.Log.Defs.{LogEntry}
use my_super_ledger.Raft.Core.Main.{
  Output, append_entries_round, append_to_peers, request_vote_round, vote_from_peers,
}
use my_super_ledger.Raft.Safety.Votes.{
  VoteKept, VoteKept-refl, VoteKept-trans, SameVote-VoteKept, append_entries-SameVote,
  step_down-VoteKept,
}

pub append_response-VoteKept :
    (r : Readings) (resp : AppendResponse) (s s' : Core) (replies : List Reply)
    → handle_append_entries_response r resp s ≡ done (s', replies)
    → VoteKept s.log s'.log
unfolding handle_append_entries_response
append_response-VoteKept r resp s s' replies h =
    elim (Bool-cases (s.log.current_term == resp.saved_term)) [
      | inr other ↦ same_log (ground arith)
      | inl mine ↦ elim (Bool-cases (role_code s.role == role_code leader)) [
        | inr no_leader ↦ absurd (ground arith)
        | inl leading ↦ elim (Bool-cases (ltb s.log.current_term resp.term)) [
          | inl older ↦ step_down-VoteKept r resp.term s s' replies (rw (mine, leading, older) at h)
          | inr newest ↦ same_log (ground arith)
        ]
      ]
    ]
  where
    same_log : s'.log ≡ s.log → VoteKept s.log s'.log
    same_log e = subst (VoteKept s.log) (sym e) (VoteKept-refl s.log)

decide_vote-VoteKept :
    (r : Readings) (req : VoteRequest) (replies : List Reply) (s : Core) (h : Handled VoteResponse)
    → decide_vote r req replies s ≡ done h
    → VoteKept s.log h.core.log
unfolding decide_vote
decide_vote-VoteKept r req replies s h e =
    let (last_term, read, e₁) = >>=-eq-done (term_of_log_entry_at s.log.last_index s.log) _ e in
    record { term = ground arith; vote = λ same voted. ground arith }

pub vote_request-VoteKept :
    (r : Readings) (req : VoteRequest) (s : Core) (h : Handled VoteResponse)
    → handle_request_vote_request r req s ≡ done h
    → VoteKept s.log h.core.log
unfolding handle_request_vote_request
vote_request-VoteKept r req s h e = elim (Bool-cases (role_code s.role == role_code syncer)) [
  | inl syncing ↦ unchanged (ground arith)
  | inr voting ↦ elim (Bool-cases (ltb req.term s.log.current_term)) [
    | inl stale ↦ unchanged (ground arith)
    | inr current ↦ elim (Bool-cases (ltb s.log.current_term req.term)) [
      | inr same ↦ decide_vote-VoteKept r req [] s h (rw (voting, current, same) at e)
      | inl newer ↦
          let (p, stepped, e₁) =
            >>=-eq-done (step_down r req.term s) _ (rw (voting, current, newer) at e) in
          VoteKept-trans (step_down-VoteKept r req.term s p.0 p.1 stepped)
            (decide_vote-VoteKept r req p.1 p.0 h e₁)
    ]
  ]
]
  where
    unchanged : h.core.log ≡ s.log → VoteKept s.log h.core.log
    unchanged e = subst (VoteKept s.log) (sym e) (VoteKept-refl s.log)

pub vote_response-VoteKept :
    (r : Readings) (resp : VoteResponse) (s s' : Core) (replies : List Reply)
    → handle_request_vote_response r resp s ≡ done (s', replies)
    → VoteKept s.log s'.log
unfolding handle_request_vote_response
vote_response-VoteKept r resp s s' replies h =
    elim (Bool-cases (
      not (s.log.current_term == resp.saved_term)
      || not (role_code s.role == role_code candidate))) [
        | inl other ↦ same_log (ground arith)
        | inr mine ↦ elim (Bool-cases (ltb s.log.current_term resp.term)) [
          | inl older ↦ step_down-VoteKept r resp.term s s' replies (rw (mine, older) at h)
          | inr newest ↦ same_log (ground arith)
        ]
      ]
  where
    same_log : s'.log ≡ s.log → VoteKept s.log s'.log
    same_log e = subst (VoteKept s.log) (sym e) (VoteKept-refl s.log)

pub client_requests-VoteKept :
    (cs : List ClientRequest) (s : Core) → VoteKept s.log (handle_client_requests cs s).0.log
unfolding handle_client_requests
client_requests-VoteKept cs s = elim (Bool-cases (role_code s.role == role_code leader)) [
  | inl leading ↦ rw leading (
      SameVote-VoteKept
        (append_entries-SameVote (select_requests s.log.current_term s.log.last_index cs).0 s.log))
  | inr other ↦ rw other (VoteKept-refl s.log)
]

pub advance-log :
    (s s' : Core) (replies : List Reply)
    → advance_commit_index s ≡ done (s', replies)
    → s'.log ≡ s.log
unfolding advance_commit_index
advance-log s s' replies h = ground arith

pub become_leader-VoteKept :
    (r : Readings) (s s' : Core) → become_leader r s ≡ done s' → VoteKept s.log s'.log
unfolding become_leader
become_leader-VoteKept r s s' h = ground arith

pub election-VoteKept :
    (r : Readings) (s : Core)
    → s.log.current_term + 1 < 2 ^ 64
    → VoteKept s.log (election_timeout r s).log
unfolding election_timeout
election-VoteKept r s b = record { term = ground arith; vote = λ same voted. ground arith }

pub leadership-VoteKept :
    (r : Readings) (s s' : Core) (replies : List Reply)
    → leadership_timeout r s ≡ done (s', replies)
    → VoteKept s.log s'.log
unfolding leadership_timeout
leadership-VoteKept r s s' replies h = elim (Bool-cases (role_code s.role == role_code leader)) [
  | inr other ↦ same_log (ground arith)
  | inl leading ↦
      let (heard, read, h₁) =
        >>=-eq-done (majority_value (r.now 0 ∷ response_times s.peers)) _ (rw leading at h) in
      elim (Bool-cases (ltb (sub64 (r.now 0) heard) (max_election_timeout_in_millis * 1000000))) [
        | inl recent ↦ same_log (ground arith)
        | inr silent ↦
            step_down-VoteKept (record { now = λ n. r.now (n + 1); rand = r.rand })
              (add64 s.log.current_term 1) s s' replies (rw silent at h₁)
      ]
]
  where
    same_log : s'.log ≡ s.log → VoteKept s.log s'.log
    same_log e = subst (VoteKept s.log) (sym e) (VoteKept-refl s.log)

pub append_round-log :
    (byte_size : LogEntry → ℕ) (r : Readings) (s s' : Core) (outputs : List Output)
    → append_entries_round byte_size r s ≡ done (s', outputs)
    → s'.log ≡ s.log
unfolding append_entries_round
append_round-log byte_size r s s' outputs h =
    elim (Bool-cases (role_code s.role == role_code leader)) [
      | inr other ↦ ground arith
      | inl leads ↦
          let (p, sent, h₁) =
            >>=-eq-done (append_to_peers byte_size r 0 s s.peers) _ (rw leads at h) in
          ap (λ (x : Core × List Output). x.0.log) (sym (done-injective h₁))
    ]

pub vote_round-log :
    (r : Readings) (s s' : Core) (outputs : List Output)
    → request_vote_round r s ≡ done (s', outputs)
    → s'.log ≡ s.log
unfolding request_vote_round
vote_round-log r s s' outputs h = elim (Bool-cases (role_code s.role == role_code candidate)) [
  | inr other ↦ ground arith
  | inl stands ↦
      let (p, sent, h₁) = >>=-eq-done (vote_from_peers r 0 s s.peers) _ (rw stands at h) in
      ap (λ (x : Core × List Output). x.0.log) (sym (done-injective h₁))
]
