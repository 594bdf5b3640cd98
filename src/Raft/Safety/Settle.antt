-- ===== src/Raft/Safety/Settle.antt =====
-- `handleAppendEntriesRequest` keeps a settled node settled.
use mathlib.Core.Path.{subst}
use my_super_ledger.Prelude.{
  ℕ, ◌+◌, ◌≤◌, ◌<◌, ◌^◌, Bool, true, false, ◌≡◌, refl, sym, ◌∙◌, ap, List, done, length, ltb, ◌==◌,
  arith, Bool-cases, inl, inr, >>=-eq-done, done-injective,
}
use my_super_ledger.Raft.Log.View.{IsWellFormed, view}
use my_super_ledger.Raft.Log.Append.{appended}
use my_super_ledger.Raft.Core.State.{
  syncer, role_code, Core, Reply, Readings, update_election_time_point, step_down,
  lower_to_follower, retire,
}
use my_super_ledger.Raft.Core.Replicate.{
  AppendRequest, AppendResponse, Handled, store_entries, hail, yield_to, answer_leader,
  handle_append_entries_request,
}
use my_super_ledger.Raft.Safety.Store.{store_entries_inv}
use my_super_ledger.Raft.Safety.Follow.{Followed, follow_leader_inv}
use my_super_ledger.Raft.Safety.Prefix.{
  PrefixKept-trans, accept_entries-PrefixKept, append_all-PrefixKept, store_entries_commit,
}

-- What a node may rely on before a request and after it.
pub record Settled (s : Core) : Type 0 where
  pub log : IsWellFormed s.log
  pub commit : s.commit_index ≤ s.log.last_index

-- What a request of a leader leaves of a settled node.
pub record SettledKept (s s' : Core) : Type 0 where
  pub settled : Settled s'
  pub commit : s.commit_index ≤ s'.commit_index
  pub kept : (i : ℕ) → i ≤ s.commit_index → view s'.log i ≡ view s.log i

store_entries-SettledKept :
    (req : AppendRequest) (s s' : Core)
    → Settled s
    → s.log.last_index + length req.entries + 1 < 2 ^ 64
    → store_entries req s ≡ done s'
    → SettledKept s s'
store_entries-SettledKept req s s' w room h =
    let (m, kept, accepted, appended) = store_entries_inv req s s' h in
    let (cut, short) =
      accept_entries-PrefixKept s.commit_index req.prev_log_index req.entries s.log m kept w.log
        w.commit accepted in
    let added =
      append_all-PrefixKept s.commit_index kept m s'.log cut.well_formed cut.last
        (omega (arith, cut.room_left, short)) appended in
    let p = PrefixKept-trans cut added in
    let (monotone, inside) = store_entries_commit req s s' h in
    record {
      settled = record { log = p.well_formed; commit = inside p.last };
      commit = monotone;
      kept = p.kept;
    }

-- Nothing in the log or the commit index changes but the term and the vote.
pub record SameEntries (s s' : Core) : Type 0 where
  pub entries : s'.log.entries ≡ s.log.entries
  pub first : s'.log.first_index ≡ s.log.first_index
  pub last : s'.log.last_index ≡ s.log.last_index
  pub commit : s'.commit_index ≡ s.commit_index

pub yield_to-SameEntries :
    (r : Readings) (t : ℕ) (s s' : Core) (replies : List Reply)
    → yield_to r t s ≡ done (s', replies)
    → SameEntries s s'
unfolding yield_to step_down lower_to_follower retire update_election_time_point
yield_to-SameEntries r t s s' replies h = record {
  entries = ground arith;
  first = ground arith;
  last = ground arith;
  commit = ground arith;
}

hail-SameEntries :
    (r : Readings) (id : ℕ) (s s' : Core)
    → hail id (update_election_time_point r 1 1 s) ≡ done s'
    → SameEntries s s'
unfolding hail update_election_time_point
hail-SameEntries r id s s' h = record {
  entries = ground arith;
  first = ground arith;
  last = ground arith;
  commit = ground arith;
}

pub SameEntries-trans : {s t u : Core} → SameEntries s t → SameEntries t u → SameEntries s u
SameEntries-trans p q = record {
  entries = q.entries ∙ p.entries;
  first = q.first ∙ p.first;
  last = q.last ∙ p.last;
  commit = q.commit ∙ p.commit;
}

same_view : {s t : Core} → SameEntries s t → (i : ℕ) → view t.log i ≡ view s.log i
unfolding view
same_view {s} {t} p i = rw (p.first, p.entries) refl

pub SameEntries-SettledKept : {s t : Core} → SameEntries s t → Settled s → SettledKept s t
SameEntries-SettledKept {s} {t} p w = record {
  settled = record {
    log = record {
      first = omega (arith, p.first, w.log.first);
      size = rw (p.entries, p.first, p.last) w.log.size;
      bound = omega (arith, p.last, w.log.bound);
      numbered = rw (p.entries, p.first) w.log.numbered;
    };
    commit = omega (arith, p.commit, p.last, w.commit);
  };
  commit = omega (arith, p.commit);
  kept = λ i h. same_view p i;
}

pub SettledKept-trans : {s t u : Core} → SettledKept s t → SettledKept t u → SettledKept s u
SettledKept-trans p q = record {
  settled = q.settled;
  commit = omega (arith, p.commit, q.commit);
  kept = λ i h. q.kept i (omega (arith, p.commit)) ∙ p.kept i h;
}

pub Followed-SameEntries :
    (r : Readings) (req : AppendRequest) (s : Core) (h : Handled AppendResponse)
    (f : Followed r req s h)
    → SameEntries s f.hailed
Followed-SameEntries r req s h f =
    SameEntries-trans (yield_to-SameEntries r req.term s f.yielded f.replies f.yield_step)
      (hail-SameEntries r req.leader_id f.yielded f.hailed f.hail_step)

answer_leader-SettledKept :
    (r : Readings) (req : AppendRequest) (replies : List Reply) (s n : Core) (fits : Bool)
    (h : Handled AppendResponse)
    → Settled n
    → n.log.last_index + length req.entries + 1 < 2 ^ 64
    → answer_leader r req replies s n fits ≡ done h
    → SettledKept n h.core
unfolding answer_leader update_election_time_point
answer_leader-SettledKept r req replies s n false h w room e =
    subst (λ (x : Handled AppendResponse). SettledKept n x.core) (done-injective e)
      (SameEntries-SettledKept (record { entries = refl; first = refl; last = refl; commit = refl })
        w)
answer_leader-SettledKept r req replies s n true h w room e =
    let (n', stored, e₁) = >>=-eq-done (store_entries req n) _ e in
    let p = store_entries-SettledKept req n n' w room stored in
    subst (λ (x : Handled AppendResponse). SettledKept n x.core) (done-injective e₁)
      (SettledKept-trans p (
        SameEntries-SettledKept
          (record { entries = refl; first = refl; last = refl; commit = refl }) p.settled))

-- A leader's request to a settled node, with indices below 2^64 - 1, however it ends, keeps every
-- entry up to the commit index, moves that index only forward, and leaves the node settled: the
-- log in order and the commit index inside it.
pub append_request-SettledKept :
    (r : Readings) (req : AppendRequest) (s : Core) (h : Handled AppendResponse)
    → Settled s
    → s.log.last_index + length req.entries + 1 < 2 ^ 64
    → handle_append_entries_request r req s ≡ done h
    → SettledKept s h.core
unfolding handle_append_entries_request
append_request-SettledKept r req s h w room e =
    elim (Bool-cases (ltb req.term s.log.current_term)) [
      | inl stale ↦ unchanged (done-injective (rw stale at e)) refl
      | inr current ↦ elim (Bool-cases (role_code s.role == role_code syncer)) [
        | inl syncing ↦ unchanged (done-injective (rw (current, syncing) at e)) refl
        | inr following ↦
            let f = follow_leader_inv r req s h (rw (current, following) at e) in
            let same = Followed-SameEntries r req s h f in
            let p = SameEntries-SettledKept same w in
            SettledKept-trans p (
              answer_leader-SettledKept r req f.replies s f.hailed f.fits h p.settled
                (omega (arith, same.last)) f.answer_step)
      ]
    ]
  where
    itself : SettledKept s s
    itself =
        SameEntries-SettledKept
          (record { entries = refl; first = refl; last = refl; commit = refl }) w

    unchanged : {h' : Handled AppendResponse} → h' ≡ h → h'.core ≡ s → SettledKept s h.core
    unchanged same at_s =
        subst (λ (x : Core). SettledKept s x)
          (sym at_s ∙ ap (λ (x : Handled AppendResponse). x.core) same) itself
