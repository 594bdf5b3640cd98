-- ===== src/Raft/Safety/Grants.antt =====
-- Whom a node votes for: `handleRequestVoteRequest` along its runs.
use my_super_ledger.Prelude.{ℕ, ◌<◌, ◌≡◌, ◌≢◌, List, done, true}
use my_super_ledger.Prelude.{
  sym, ◌∙◌, ltb, ◌==◌, false, arith, Bool-cases, inl, inr, >>=-eq-done, [],
}
use my_super_ledger.Raft.Core.State.{
  Core, Readings, Reply, step_down, lower_to_follower, retire, role_code, syncer,
  term_of_log_entry_at,
}
use my_super_ledger.Raft.Core.Replicate.{Handled}
use my_super_ledger.Raft.Core.Vote.{
  VoteRequest, VoteResponse, handle_request_vote_request, decide_vote,
}
use my_super_ledger.Raft.Safety.Keep.{vote_request-VoteKept}
use my_super_ledger.Raft.Safety.Steps.{Steps, Steps-VoteKept}

step_down-term :
    (r : Readings) (t : ℕ) (s s' : Core) (replies : List Reply)
    → step_down r t s ≡ done (s', replies)
    → s.log.current_term < t
    → s'.log.current_term ≡ t
unfolding step_down lower_to_follower retire
step_down-term r t s s' replies h b = ground arith

decide_vote-grant :
    (r : Readings) (req : VoteRequest) (replies : List Reply) (s : Core) (h : Handled VoteResponse)
    → decide_vote r req replies s ≡ done h
    → h.response.vote_granted ≡ true
    → (h.core.log.current_term ≡ s.log.current_term) × (h.core.log.vote_for ≡ req.candidate_id)
unfolding decide_vote
decide_vote-grant r req replies s h e g =
    let (last_term, read, e₁) = >>=-eq-done (term_of_log_entry_at s.log.last_index s.log) _ e in
    (ground arith, ground arith)

-- A node that grants a vote is in the term of the request then, and has its candidate down.
pub grant_lem :
    (r : Readings) (req : VoteRequest) (s : Core) (h : Handled VoteResponse)
    → handle_request_vote_request r req s ≡ done h
    → h.response.vote_granted ≡ true
    → (h.core.log.current_term ≡ req.term) × (h.core.log.vote_for ≡ req.candidate_id)
unfolding handle_request_vote_request
grant_lem r req s h e g = elim (Bool-cases (role_code s.role == role_code syncer)) [
  | inl syncing ↦ absurd (ground arith)
  | inr voting ↦ elim (Bool-cases (ltb req.term s.log.current_term)) [
    | inl stale ↦ absurd (ground arith)
    | inr current ↦ elim (Bool-cases (ltb s.log.current_term req.term)) [
      | inr same ↦
          let (term, vote) = decide_vote-grant r req [] s h (rw (voting, current, same) at e) g in
          (term ∙ ground arith, vote)
      | inl newer ↦
          let (p, stepped, e₁) =
            >>=-eq-done (step_down r req.term s) _ (rw (voting, current, newer) at e) in
          let (term, vote) = decide_vote-grant r req p.1 p.0 h e₁ g in
          (term ∙ step_down-term r req.term s p.0 p.1 stepped (ground arith), vote)
    ]
  ]
]

-- A grant needs a free vote, or one for the same candidate, unless the term is new.
decide_vote-free :
    (r : Readings) (req : VoteRequest) (replies : List Reply) (s : Core) (h : Handled VoteResponse)
    → decide_vote r req replies s ≡ done h
    → h.response.vote_granted ≡ true
    → s.log.vote_for ≢ 0
    → s.log.vote_for ≡ req.candidate_id
unfolding decide_vote
decide_vote-free r req replies s h e g v =
    let (last_term, read, e₁) = >>=-eq-done (term_of_log_entry_at s.log.last_index s.log) _ e in
    ground arith

grant-free :
    (r : Readings) (req : VoteRequest) (s : Core) (h : Handled VoteResponse)
    → handle_request_vote_request r req s ≡ done h
    → h.response.vote_granted ≡ true
    → s.log.current_term ≡ req.term
    → s.log.vote_for ≢ 0
    → s.log.vote_for ≡ req.candidate_id
unfolding handle_request_vote_request
grant-free r req s h e g t v = elim (Bool-cases (role_code s.role == role_code syncer)) [
  | inl syncing ↦ absurd (ground arith)
  | inr voting ↦
      let current : ltb req.term s.log.current_term ≡ false = ground arith in
      let same : ltb s.log.current_term req.term ≡ false = ground arith in
      decide_vote-free r req [] s h (rw (voting, current, same) at e) g v
]

-- A node that grants two requests for one term, at two moments of a run, grants them to the same
-- candidate, if the first one's id is not 0. In the run it stands for election only at a term
-- below 2^64 - 1.
pub one_vote_per_term :
    (r₁ r₂ : Readings) (req₁ req₂ : VoteRequest) (s t : Core) (h₁ h₂ : Handled VoteResponse)
    → handle_request_vote_request r₁ req₁ s ≡ done h₁
    → h₁.response.vote_granted ≡ true
    → Steps h₁.core t
    → handle_request_vote_request r₂ req₂ t ≡ done h₂
    → h₂.response.vote_granted ≡ true
    → req₂.term ≡ req₁.term
    → req₁.candidate_id ≢ 0
    → req₂.candidate_id ≡ req₁.candidate_id
one_vote_per_term r₁ r₂ req₁ req₂ s t h₁ h₂ e₁ g₁ run e₂ g₂ same id =
    let (term₁, vote₁) = grant_lem r₁ req₁ s h₁ e₁ g₁ in
    let (term₂, vote₂) = grant_lem r₂ req₂ t h₂ e₂ g₂ in
    let kept = Steps-VoteKept run in
    let granted = vote_request-VoteKept r₂ req₂ t h₂ e₂ in
    let at_t : t.log.current_term ≡ h₁.core.log.current_term =
      omega (arith, kept.term, granted.term) in
    let stays = kept.vote at_t (λ z. id (sym vote₁ ∙ z)) in
    let held : t.log.vote_for ≡ req₁.candidate_id = stays ∙ vote₁ in
    sym (grant-free r₂ req₂ t h₂ e₂ g₂ (omega arith) (λ z. id (sym held ∙ z))) ∙ held
