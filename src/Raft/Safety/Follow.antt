-- ===== src/Raft/Safety/Follow.antt =====
-- `handleAppendEntriesRequest`, taken apart.
use mathlib.Core.Path.{subst}
use my_super_ledger.Prelude.{
  Bool, true, false, ◌≡◌, ◌∙◌, List, done, >>=-eq-done, done-injective, Bool-cases, inl, inr, ltb,
  ◌==◌,
}
use my_super_ledger.Raft.Core.State.{
  syncer, role_code, Core, Readings, Reply, update_election_time_point,
}
use my_super_ledger.Raft.Core.Replicate.{
  AppendRequest, AppendResponse, Handled, store_entries, hail, yield_to, log_is_ok, answer_leader,
  follow_leader, handle_append_entries_request,
}
use my_super_ledger.Raft.Safety.Votes.{
  VoteKept, VoteKept-refl, VoteKept-trans, SameVote, SameVote-VoteKept, SameVote-refl,
}
use my_super_ledger.Raft.Safety.Store.{
  store_entries-SameVote, yield_to-VoteKept, hail-log, election_time-log,
}

-- What `follow_leader` went through.
pub record Followed (r : Readings) (req : AppendRequest) (s : Core) (h : Handled AppendResponse)
    : Type 0 where
  pub yielded : Core
  pub replies : List Reply
  pub hailed : Core
  pub fits : Bool
  pub yield_step : yield_to r req.term s ≡ done (yielded, replies)
  pub hail_step : hail req.leader_id (update_election_time_point r 1 1 yielded) ≡ done hailed
  pub fits_step : log_is_ok req hailed.log ≡ done fits
  pub answer_step : answer_leader r req replies s hailed fits ≡ done h

pub follow_leader_inv :
    (r : Readings) (req : AppendRequest) (s : Core) (h : Handled AppendResponse)
    → follow_leader r req s ≡ done h
    → Followed r req s h
unfolding follow_leader
follow_leader_inv r req s h e =
    let (p, yielded, e₁) = >>=-eq-done (yield_to r req.term s) _ e in
    let (s₂, hailed, e₂) =
      >>=-eq-done (hail req.leader_id (update_election_time_point r 1 1 p.0)) _ e₁ in
    let (fits, tested, e₃) = >>=-eq-done (log_is_ok req s₂.log) _ e₂ in
    record {
      yielded = p.0;
      replies = p.1;
      hailed = s₂;
      fits = fits;
      yield_step = yielded;
      hail_step = hailed;
      fits_step = tested;
      answer_step = e₃;
    }

pub Followed-log :
    {r : Readings} {req : AppendRequest} {s : Core} {h : Handled AppendResponse}
    (f : Followed r req s h)
    → f.hailed.log ≡ f.yielded.log
Followed-log {r} {req} f =
    hail-log req.leader_id (update_election_time_point r 1 1 f.yielded) f.hailed f.hail_step
    ∙ election_time-log r 1 1 f.yielded

answer_leader-SameVote :
    (r : Readings) (req : AppendRequest) (replies : List Reply) (s n : Core) (fits : Bool)
    (h : Handled AppendResponse)
    → answer_leader r req replies s n fits ≡ done h
    → SameVote n.log h.core.log
unfolding answer_leader
answer_leader-SameVote r req replies s n false h e =
    subst (λ (x : Handled AppendResponse). SameVote n.log x.core.log) (done-injective e)
      (SameVote-refl n.log)
answer_leader-SameVote r req replies s n true h e =
    let (n', stored, e₁) = >>=-eq-done (store_entries req n) _ e in
    subst (λ (x : Handled AppendResponse). SameVote n.log x.core.log) (done-injective e₁)
      (store_entries-SameVote req n n' stored)

pub append_request-VoteKept :
    (r : Readings) (req : AppendRequest) (s : Core) (h : Handled AppendResponse)
    → handle_append_entries_request r req s ≡ done h
    → VoteKept s.log h.core.log
unfolding handle_append_entries_request
append_request-VoteKept r req s h e = elim (Bool-cases (ltb req.term s.log.current_term)) [
  | inl stale ↦
      subst (λ (x : Handled AppendResponse). VoteKept s.log x.core.log)
        (done-injective (rw stale at e)) (VoteKept-refl s.log)
  | inr current ↦ elim (Bool-cases (role_code s.role == role_code syncer)) [
    | inl syncing ↦
        subst (λ (x : Handled AppendResponse). VoteKept s.log x.core.log)
          (done-injective (rw (current, syncing) at e)) (VoteKept-refl s.log)
    | inr following ↦
        let f = follow_leader_inv r req s h (rw (current, following) at e) in
        VoteKept-trans (yield_to-VoteKept r req.term s f.yielded f.replies f.yield_step) (
          subst (λ x. VoteKept x h.core.log) (Followed-log f)
            (SameVote-VoteKept
              (answer_leader-SameVote r req f.replies s f.hailed f.fits h f.answer_step)))
  ]
]
