-- ===== src/Raft/Safety/Store.antt =====
-- Storing a leader's entries and yielding to it keep the term and the vote in order.
use mathlib.Core.Path.{subst}
use my_super_ledger.Prelude.{
  ℕ, ◌≡◌, refl, ap, List, [], ◌∷◌, done, >>=-eq-done, done-injective, arith, Bool-cases, inl, inr,
  ltb, assert, ◌==◌, ◌||◌, ◌&&◌, add64,
}
use my_super_ledger.Raft.Log.Defs.{LogEntry, Log, append_entries}
use my_super_ledger.Raft.Core.State.{
  candidate, role_code, Core, Readings, Reply, update_election_time_point,
}
use my_super_ledger.Raft.Core.Replicate.{
  AppendRequest, Verdict, skip, keep, accept_next, judge, accept_entries, append_all, store_entries,
  hail, yield_to,
}
use my_super_ledger.Raft.Safety.Votes.{
  VoteKept, VoteKept-refl, SameVote, SameVote-trans, append_entries-SameVote, step_down-VoteKept,
}

judge-SameVote :
    (commit : ℕ) (e : LogEntry) (l l' : Log) → judge commit e l ≡ done (keep l') → SameVote l l'
unfolding judge
judge-SameVote commit e l l' h = record { term = ground arith; vote = ground arith }

accept_entries-SameVote :
    (commit index : ℕ) (es : List LogEntry) (l l' : Log) (kept : List LogEntry)
    → accept_entries commit index es l ≡ done (l', kept)
    → SameVote l l'
unfolding accept_entries
accept_entries-SameVote commit index [] l l' kept h = record {
  term = ground arith;
  vote = ground arith;
}
accept_entries-SameVote commit index (e ∷ es) l l' kept h =
    let (_, asserted, h₁) = >>=-eq-done (assert (e.index == add64 index 1)) _ h in
    let (v, judged, h₂) = >>=-eq-done (judge commit e l) _ h₁ in
    go v judged h₂ (λ m n others. accept_entries-SameVote commit (add64 index 1) es m l' n others)
  where
    go :
        (v : Verdict)
        → judge commit e l ≡ done v
        → accept_next e l (accept_entries commit (add64 index 1) es) v ≡ done (l', kept)
        → ((m : Log) (n : List LogEntry)
            → accept_entries commit (add64 index 1) es m ≡ done (l', n)
            → SameVote m l')
        → SameVote l l'
    go skip judged rest ih = ih l kept rest
    go (keep m) judged rest ih =
        let ((m', n), others, h₃) =
          >>=-eq-done (accept_entries commit (add64 index 1) es m) _ rest in
        let same : m' ≡ l' = ap (λ (x : Log × List LogEntry). x.0) (done-injective h₃) in
        SameVote-trans (judge-SameVote commit e l m judged) (
          ih m n
            (subst (λ x. accept_entries commit (add64 index 1) es m ≡ done (x, n)) same others))

append_all-SameVote : (es : List LogEntry) (l l' : Log) → append_all es l ≡ done l' → SameVote l l'
unfolding append_all
append_all-SameVote es l l' h =
    let (_, asserted, h₁) = >>=-eq-done (assert (append_entries es l).0) _ h in
    subst (SameVote l) (done-injective h₁) (append_entries-SameVote es l)

-- The log that `store_entries` leaves.
pub store_entries_inv :
    (req : AppendRequest) (s s' : Core)
    → store_entries req s ≡ done s'
    → (m : Log) × (kept : List LogEntry) × (accept_entries s.commit_index req.prev_log_index
          req.entries s.log
        ≡ done (m, kept))
      × (append_all kept m ≡ done s'.log)
unfolding store_entries
store_entries_inv req s s' h =
    let ((m, kept), accepted, h₁) =
      >>=-eq-done (accept_entries s.commit_index req.prev_log_index req.entries s.log) _ h in
    let (l', appended, h₂) = >>=-eq-done (append_all kept m) _ h₁ in
    let same : l' ≡ s'.log = ground arith in
    (m, kept, accepted, subst (λ x. append_all kept m ≡ done x) same appended)

pub store_entries-SameVote :
    (req : AppendRequest) (s s' : Core) → store_entries req s ≡ done s' → SameVote s.log s'.log
store_entries-SameVote req s s' h =
    let (m, kept, accepted, appended) = store_entries_inv req s s' h in
    SameVote-trans
      (accept_entries-SameVote s.commit_index req.prev_log_index req.entries s.log m kept accepted)
      (append_all-SameVote kept m s'.log appended)

pub yield_to-VoteKept :
    (r : Readings) (t : ℕ) (s s' : Core) (replies : List Reply)
    → yield_to r t s ≡ done (s', replies)
    → VoteKept s.log s'.log
unfolding yield_to
yield_to-VoteKept r t s s' replies h =
    elim (Bool-cases (
      ltb s.log.current_term t
      || (t == s.log.current_term && role_code s.role == role_code candidate))) [
        | inl steps ↦ step_down-VoteKept r t s s' replies (rw steps at h)
        | inr stays ↦
            let same : s ≡ s' =
              ap (λ (x : Core × List Reply). x.0) (done-injective (rw stays at h)) in
            subst (λ (x : Core). VoteKept s.log x.log) same (VoteKept-refl s.log)
      ]

pub hail-log : (id : ℕ) (s s' : Core) → hail id s ≡ done s' → s'.log ≡ s.log
unfolding hail
hail-log id s s' h = ground arith

pub election_time-log :
    (r : Readings) (n t : ℕ) (s : Core) → (update_election_time_point r n t s).log ≡ s.log
unfolding update_election_time_point
election_time-log r n t s = refl
