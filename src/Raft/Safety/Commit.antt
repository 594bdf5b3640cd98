-- ===== src/Raft/Safety/Commit.antt =====
-- `advanceCommitIndex`: when the commit index moves, and that the assertion in it holds.
use mathlib.Core.Path.{subst}
use my_super_ledger.Prelude.{
  ℕ, ◌+◌, ◌≤◌, ◌<◌, ◌≡◌, ◌≢◌, refl, sym, ◌∙◌, ap, some, List, [], ◌∷◌, done, length, leb, ◌==◌,
  arith, Bool-cases, inl, inr, expect-eq-done, expect, ==→eq, >>=-eq-done,
}
use my_super_ledger.Raft.Log.Defs.{Log, get_term}
use my_super_ledger.Raft.Log.View.{IsWellFormed, get_term-eq-view, view_inside}
use my_super_ledger.Raft.Core.State.{leader, role_code, Core, Reply, term_of_log_entry_at}
use my_super_ledger.Raft.Core.Vote.{majority_number}
use my_super_ledger.Raft.Core.Lead.{
  majority_value, match_indices, commit_to, advance_commit_index, take_committed, drop_committed,
}
use my_super_ledger.Raft.Core.State.{reply_all}
use my_super_ledger.Raft.Safety.Quorum.{count_reached, majority_value_lem, majority_value_exists}

-- Where each member of the group has got to, this node first.
abbrev pub progress : Core → List ℕ
progress s = s.log.last_index ∷ match_indices s.peers

-- What holds of a new commit index.
pub record Committed (s s' : Core) : Type 0 where
  pub leads : role_code s.role ≡ 0
  pub later : s.commit_index < s'.commit_index
  pub inside : s'.commit_index ≤ s.log.last_index
  pub reached : majority_number (length (progress s)) ≤ count_reached s'.commit_index (progress s)
  pub own_term : get_term s'.commit_index s.log ≡ some s.log.current_term

pub commit_to_inv :
    (i : ℕ) (s s' : Core) (replies : List Reply)
    → commit_to i s ≡ done (s', replies)
    → (s'.commit_index ≡ i) × (i ≤ s.log.last_index)
unfolding commit_to
commit_to_inv i s s' replies h = (ground arith, ground arith)

term_read : (i : ℕ) (l : Log) {t : ℕ} → term_of_log_entry_at i l ≡ done t → get_term i l ≡ some t
unfolding term_of_log_entry_at
term_read i l h = expect-eq-done (get_term i l) h

-- Where the leader moves its commit index, it moves it forward, to an entry of the log and of its
-- own term that a majority of the group has.
pub advance_lem :
    (s s' : Core) (replies : List Reply)
    → advance_commit_index s ≡ done (s', replies)
    → s'.commit_index ≢ s.commit_index
    → Committed s s'
unfolding advance_commit_index
advance_lem s s' replies h moved = elim (Bool-cases (role_code s.role == role_code leader)) [
  | inr other ↦ absurd (moved (ground arith))
  | inl leads ↦
      let (i, found, h₁) = >>=-eq-done (majority_value (progress s)) _ (rw leads at h) in
      elim (Bool-cases (leb i s.commit_index)) [
        | inl old ↦ absurd (moved (ground arith))
        | inr new ↦
            let (term, read, h₂) = >>=-eq-done (term_of_log_entry_at i s.log) _ (rw new at h₁) in
            elim (Bool-cases (term == s.log.current_term)) [
              | inr foreign ↦ absurd (moved (ground arith))
              | inl own ↦
                  let (same, inside) = commit_to_inv i s s' replies (rw own at h₂) in
                  record {
                    leads = ground arith;
                    later = ground arith;
                    inside = omega (arith, same, inside);
                    reached =
                        subst
                          (λ j.
                            majority_number (length (progress s)) ≤ count_reached j (progress s))
                          (sym same) (majority_value_lem (progress s) i found).0;
                    own_term =
                        ap (λ j. get_term j s.log) same
                        ∙ term_read i s.log read
                        ∙ ap some (==→eq term s.log.current_term own);
                  }
            ]
      ]
]

-- Every member is at most at `b`.
abbrev pub AllWithin : ℕ → List ℕ → Type 0
AllWithin b [] = Unit {0}
AllWithin b (x ∷ xs) = (x ≤ b) × AllWithin b xs

count-within : (b w : ℕ) (xs : List ℕ) → AllWithin b xs → 1 ≤ count_reached w xs → w ≤ b
unfolding count_reached
count-within b w [] a h = absurd (omega arith)
count-within b w (x ∷ xs) a h = elim (Bool-cases (leb w x)) [
  | inl reached ↦ ground (arith, a.0)
  | inr short ↦ count-within b w xs a.1 (ground arith)
]

-- The followers of a leader are within its log, and the log reaches down to its commit index.
pub record Leads (s : Core) : Type 0 where
  pub log : IsWellFormed s.log
  pub above : s.log.first_index ≤ s.commit_index + 1
  pub followers : AllWithin s.log.last_index (match_indices s.peers)

commit_to_total :
    (i : ℕ) (s : Core)
    → i ≤ s.log.last_index
    → (out : Core × List Reply) × (commit_to i s ≡ done out)
unfolding commit_to
commit_to_total i s h = (
  (
    record s { commit_index = i; pending = drop_committed i s.pending },
    reply_all 200 "Success" s.leader_id (take_committed i s.pending),
  ),
  ground arith,
)

term_total :
    (i : ℕ) (l : Log)
    → IsWellFormed l
    → l.first_index ≤ i
    → i ≤ l.last_index
    → (t : ℕ) × (term_of_log_entry_at i l ≡ done t)
unfolding term_of_log_entry_at
term_total i l w lo hi =
    let (e, found) = view_inside l w i lo hi in
    let read : get_term i l ≡ some e.term =
      get_term-eq-view l w i ∙ ground (arith, found, w.first) in
    (e.term, ap expect read)

majority_positive : (n : ℕ) → 1 ≤ majority_number n
unfolding majority_number
majority_positive n = omega arith

-- A leader whose log is in order and reaches down to the commit index, and whose followers are
-- within it, gets through `advanceCommitIndex`: no assertion fails.
pub advance_total :
    (s : Core) → Leads s → (out : Core × List Reply) × (advance_commit_index s ≡ done out)
unfolding advance_commit_index
advance_total s w = elim (Bool-cases (role_code s.role == role_code leader)) [
  | inr other ↦ ((s, []), ground arith)
  | inl leads ↦
      let (i, found) = majority_value_exists s.log.last_index (match_indices s.peers) in
      elim (Bool-cases (leb i s.commit_index)) [
        | inl old ↦ ((s, []), rw (leads, found, old) refl)
        | inr new ↦
            let within =
              count-within s.log.last_index i (progress s) (omega arith, w.followers)
                (omega (
                  arith,
                  (majority_value_lem (progress s) i found).0,
                  majority_positive (length (progress s)),
                )) in
            let (t, read) = term_total i s.log w.log (ground (arith, w.above)) within in
            elim (Bool-cases (t == s.log.current_term)) [
              | inr foreign ↦ ((s, []), rw (leads, found, new, read, foreign) refl)
              | inl own ↦
                  let (out, e) = commit_to_total i s within in
                  (out, rw (leads, found, new, read, own) e)
            ]
      ]
]
