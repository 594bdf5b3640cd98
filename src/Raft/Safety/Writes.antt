-- ===== src/Raft/Safety/Writes.antt =====
-- What a leader writes: the clients' entries, and the first entry of its term.
use mathlib.Core.Path.{subst}
use my_super_ledger.Prelude.{
  ◌↔◌, ℕ, ◌+◌, ◌≤◌, ◌<◌, ◌^◌, Bool, true, ◌&&◌, ◌≡◌, refl, sym, ap, Option, some, List, [], ◌∷◌,
  ◌++◌, length, ◌==◌, arith, Bool-cases, inl, inr, add64,
}
use my_super_ledger.Raft.Log.Defs.{LogEntry, Log, append_entries}
use my_super_ledger.Raft.Log.View.{IsWellFormed, view, Numbered}
use my_super_ledger.Raft.Log.Append.{append_entries_lem, Extends}
use my_super_ledger.Raft.Core.State.{leader, role_code, Core}
use my_super_ledger.Raft.Core.Vote.{majority_number, count_votes}
use my_super_ledger.Raft.Core.Client.{ClientRequest, select_requests, handle_client_requests}

-- Each entry is of the term.
abbrev pub AllOfTerm : ℕ → List LogEntry → Type 0
AllOfTerm t [] = Unit {0}
AllOfTerm t (e ∷ es) = (e.term ≡ t) × AllOfTerm t es

-- The entries that `handleClientRequests` selects, and those that it lets wait.
abbrev pub chosen : List ClientRequest → Core → List LogEntry
chosen cs s = (select_requests s.log.current_term s.log.last_index cs).0

abbrev pub waiting : List ClientRequest → Core → List (ℕ × Option ℕ)
waiting cs s = (select_requests s.log.current_term s.log.last_index cs).1

select_lem :
    (t last : ℕ) (cs : List ClientRequest)
    → last + length cs + 1 < 2 ^ 64
    → Numbered (last + 1) (select_requests t last cs).0
      × AllOfTerm t (select_requests t last cs).0
      × (length (select_requests t last cs).0 ≤ length cs)
unfolding select_requests
select_lem t last [] b = (tt, tt, omega arith)
select_lem t last (c ∷ cs) b =
    elim (Bool-cases (c.entry.term == t && c.entry.index == add64 last 1)) [
      | inl fits ↦
          let bump : add64 last 1 ≡ last + 1 = omega arith in
          let (n, a, l) = select_lem t (last + 1) cs (omega arith) in
          rw (fits, bump) ((ground arith, n), (ground arith, a), omega (arith, l))
      | inr skips ↦
          let (n, a, l) = select_lem t last cs (omega arith) in rw skips (n, a, omega (arith, l))
    ]

-- What a leader's round of client requests leaves.
pub record Written (cs : List ClientRequest) (s s' : Core) : Type 0 where
  pub extends : Extends s.log s'.log (chosen cs s)
  pub own_term : AllOfTerm s.log.current_term (chosen cs s)
  pub pending : s'.pending ≡ s.pending ++ waiting cs s
  pub commit : s'.commit_index ≡ s.commit_index

pub client_requests_lem :
    (cs : List ClientRequest) (s : Core)
    → role_code s.role ≡ role_code leader
    → IsWellFormed s.log
    → s.log.last_index + length cs + 1 < 2 ^ 64
    → Written cs s (handle_client_requests cs s).0
unfolding handle_client_requests
client_requests_lem cs s leads w room =
    let (n, own, short) = select_lem s.log.current_term s.log.last_index cs room in
    let (l', added, x) = append_entries_lem (chosen cs s) s.log w n (omega (arith, short)) in
    let same : (append_entries (chosen cs s) s.log).1 ≡ l' = ap (λ (p : Bool × Log). p.1) added in
    rw leads (record {
      extends = subst (λ m. Extends s.log m (chosen cs s)) (sym same) x;
      own_term = own;
      pending = refl;
      commit = refl;
    })

-- What counting the votes leaves of a candidate.
pub record Counted (s s' : Core) : Type 0 where
  pub leads :
      (role_code s'.role ≡ role_code leader)
      ↔ (majority_number (length s.peers + 1) ≤ 1 + count_votes s.peers)
  pub old : (i : ℕ) → i ≤ s.log.last_index → view s'.log i ≡ view s.log i
  pub opened :
      role_code s'.role ≡ role_code leader
      → (e : LogEntry) × (view s'.log (s.log.last_index + 1) ≡ some e)
        × (e.noop ≡ true)
        × (e.term ≡ s.log.current_term)
