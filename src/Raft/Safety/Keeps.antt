-- ===== src/Raft/Safety/Keeps.antt =====
-- Each handler, and whether it touches the entries of the log or the commit index.
use my_super_ledger.Prelude.{
  ℕ, ◌+◌, not, ◌||◌, ◌≡◌, refl, List, [], ◌∷◌, done, >>=-eq-done, arith, Bool-cases, inl, inr, ltb,
  ◌==◌, add64, sub64, ◌*◌,
}
use my_super_ledger.Raft.Core.State.{
  leader, candidate, syncer, role_code, Core, Readings, Reply, step_down, lower_to_follower, retire,
  update_election_time_point, term_of_log_entry_at, max_election_timeout_in_millis,
}
use my_super_ledger.Raft.Core.Replicate.{AppendResponse, Handled, handle_append_entries_response}
use my_super_ledger.Raft.Core.Vote.{
  VoteRequest, VoteResponse, handle_request_vote_request, handle_request_vote_response, decide_vote,
  election_timeout,
}
use my_super_ledger.Raft.Core.Lead.{majority_value, response_times, leadership_timeout}
use my_super_ledger.Raft.Safety.Settle.{SameEntries, SameEntries-trans}

pub SameEntries-refl : (s : Core) → SameEntries s s
SameEntries-refl s = record { entries = refl; first = refl; last = refl; commit = refl }

step_down-SameEntries :
    (r : Readings) (t : ℕ) (s s' : Core) (replies : List Reply)
    → step_down r t s ≡ done (s', replies)
    → SameEntries s s'
unfolding step_down lower_to_follower retire update_election_time_point
step_down-SameEntries r t s s' replies h = record {
  entries = ground arith;
  first = ground arith;
  last = ground arith;
  commit = ground arith;
}

pub append_response-SameEntries :
    (r : Readings) (resp : AppendResponse) (s s' : Core) (replies : List Reply)
    → handle_append_entries_response r resp s ≡ done (s', replies)
    → SameEntries s s'
unfolding handle_append_entries_response
append_response-SameEntries r resp s s' replies h =
    elim (Bool-cases (s.log.current_term == resp.saved_term)) [
      | inr other ↦ record {
        entries = ground arith;
        first = ground arith;
        last = ground arith;
        commit = ground arith;
      }
      | inl mine ↦ elim (Bool-cases (role_code s.role == role_code leader)) [
        | inr no_leader ↦ absurd (ground arith)
        | inl leading ↦ elim (Bool-cases (ltb s.log.current_term resp.term)) [
          | inl older ↦
              step_down-SameEntries r resp.term s s' replies (rw (mine, leading, older) at h)
          | inr newest ↦ record {
            entries = ground arith;
            first = ground arith;
            last = ground arith;
            commit = ground arith;
          }
        ]
      ]
    ]

pub vote_response-SameEntries :
    (r : Readings) (resp : VoteResponse) (s s' : Core) (replies : List Reply)
    → handle_request_vote_response r resp s ≡ done (s', replies)
    → SameEntries s s'
unfolding handle_request_vote_response
vote_response-SameEntries r resp s s' replies h =
    elim (Bool-cases (
      not (s.log.current_term == resp.saved_term)
      || not (role_code s.role == role_code candidate))) [
        | inl other ↦ record {
          entries = ground arith;
          first = ground arith;
          last = ground arith;
          commit = ground arith;
        }
        | inr mine ↦ elim (Bool-cases (ltb s.log.current_term resp.term)) [
          | inl older ↦ step_down-SameEntries r resp.term s s' replies (rw (mine, older) at h)
          | inr newest ↦ record {
            entries = ground arith;
            first = ground arith;
            last = ground arith;
            commit = ground arith;
          }
        ]
      ]

decide_vote-SameEntries :
    (r : Readings) (req : VoteRequest) (replies : List Reply) (s : Core) (h : Handled VoteResponse)
    → decide_vote r req replies s ≡ done h
    → SameEntries s h.core
unfolding decide_vote
decide_vote-SameEntries r req replies s h e =
    let (last_term, read, e₁) = >>=-eq-done (term_of_log_entry_at s.log.last_index s.log) _ e in
    record {
      entries = ground arith;
      first = ground arith;
      last = ground arith;
      commit = ground arith;
    }

pub vote_request-SameEntries :
    (r : Readings) (req : VoteRequest) (s : Core) (h : Handled VoteResponse)
    → handle_request_vote_request r req s ≡ done h
    → SameEntries s h.core
unfolding handle_request_vote_request
vote_request-SameEntries r req s h e = elim (Bool-cases (role_code s.role == role_code syncer)) [
  | inl syncing ↦ record {
    entries = ground arith;
    first = ground arith;
    last = ground arith;
    commit = ground arith;
  }
  | inr voting ↦ elim (Bool-cases (ltb req.term s.log.current_term)) [
    | inl stale ↦ record {
      entries = ground arith;
      first = ground arith;
      last = ground arith;
      commit = ground arith;
    }
    | inr current ↦ elim (Bool-cases (ltb s.log.current_term req.term)) [
      | inr same ↦ decide_vote-SameEntries r req [] s h (rw (voting, current, same) at e)
      | inl newer ↦
          let (p, stepped, e₁) =
            >>=-eq-done (step_down r req.term s) _ (rw (voting, current, newer) at e) in
          SameEntries-trans (step_down-SameEntries r req.term s p.0 p.1 stepped)
            (decide_vote-SameEntries r req p.1 p.0 h e₁)
    ]
  ]
]

pub election-SameEntries : (r : Readings) (s : Core) → SameEntries s (election_timeout r s)
unfolding election_timeout
election-SameEntries r s = record {
  entries = ground arith;
  first = ground arith;
  last = ground arith;
  commit = ground arith;
}

pub leadership-SameEntries :
    (r : Readings) (s s' : Core) (replies : List Reply)
    → leadership_timeout r s ≡ done (s', replies)
    → SameEntries s s'
unfolding leadership_timeout
leadership-SameEntries r s s' replies h = elim (Bool-cases (role_code s.role == role_code leader)) [
  | inr other ↦ record {
    entries = ground arith;
    first = ground arith;
    last = ground arith;
    commit = ground arith;
  }
  | inl leading ↦
      let (heard, read, h₁) =
        >>=-eq-done (majority_value (r.now 0 ∷ response_times s.peers)) _ (rw leading at h) in
      elim (Bool-cases (ltb (sub64 (r.now 0) heard) (max_election_timeout_in_millis * 1000000))) [
        | inl recent ↦ record {
          entries = ground arith;
          first = ground arith;
          last = ground arith;
          commit = ground arith;
        }
        | inr silent ↦
            step_down-SameEntries (record { now = λ n. r.now (n + 1); rand = r.rand })
              (add64 s.log.current_term 1) s s' replies (rw silent at h₁)
      ]
]
