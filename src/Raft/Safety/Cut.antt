-- ===== src/Raft/Safety/Cut.antt =====
-- A cut of the log's prefix, and entries that are synchronised, at a settled node.
use my_super_ledger.Prelude.{
  ℕ, true, Option, some, none, not, Outcome, abort, ◌>>=◌, assert, expect, leb, leb→le, ◌≢◌,
  if◌then◌else◌, ◌+◌, ◌≤◌, ◌<◌, max, ◌^◌, ◌≡◌, refl, sym, ◌∙◌, ap, length, done, >>=-eq-done,
  done-injective, arith, Bool-cases, inl, inr, ◌==◌, add64,
}
use mathlib.Core.Path.{subst}
use my_super_ledger.Raft.Log.Defs as Log
use my_super_ledger.Raft.Log.Defs.{LogEntry, Log, append_entries, set_current_term}
use my_super_ledger.Raft.Log.Truncate.{truncate_prefix-IsWellFormed, view-truncate_prefix}
use my_super_ledger.Raft.Core.Replicate.{append_all}
use my_super_ledger.Raft.Safety.Prefix.{append_all-PrefixKept}
use my_super_ledger.Raft.Log.View.{view}
use my_super_ledger.Raft.Core.State.{follower, syncer, role_code, Core}
use my_super_ledger.Raft.Core.Client.{
  SyncRequest, back, sync_entries, handle_sync_request, truncate_prefix,
}
use my_super_ledger.Raft.Safety.Settle.{
  SameEntries, Settled, SettledKept, SameEntries-SettledKept, SettledKept-trans,
}
use my_super_ledger.Raft.Safety.Keeps.{SameEntries-refl}
use my_super_ledger.Raft.Safety.Steps.{sync_ignored}

-- What is left of a settled node, from the index `n` on.
pub record KeptFrom (n : ℕ) (s s' : Core) : Type 0 where
  pub settled : Settled s'
  pub commit : s.commit_index ≤ s'.commit_index
  pub kept : (i : ℕ) → n ≤ i → i ≤ s.commit_index → view s'.log i ≡ view s.log i

pub SettledKept-KeptFrom : {s s' : Core} (n : ℕ) → SettledKept s s' → KeptFrom n s s'
SettledKept-KeptFrom n p = record {
  settled = p.settled;
  commit = p.commit;
  kept = λ i lo hi. p.kept i hi;
}

pub untouched : {s s' : Core} → SameEntries s s' → Settled s → KeptFrom 0 s s'
untouched p w = SettledKept-KeptFrom 0 (SameEntries-SettledKept p w)

pub KeptFrom-trans :
    {s t u : Core} (m n : ℕ) → KeptFrom m s t → KeptFrom n t u → KeptFrom (max m n) s u
KeptFrom-trans m n p q = record {
  settled = q.settled;
  commit = omega (arith, p.commit, q.commit);
  kept = λ i lo hi. q.kept i (omega arith) (omega (arith, p.commit)) ∙ p.kept i (omega arith) hi;
}

last-truncate_prefix :
    (kept : ℕ) (l : Log)
    → kept ≤ l.last_index
    → (Log.truncate_prefix kept l).last_index ≡ l.last_index
unfolding Log.truncate_prefix
last-truncate_prefix kept l inside = ground arith

pub truncate_prefix-KeptFrom :
    (kept : ℕ) (s s' : Core) → Settled s → truncate_prefix kept s ≡ done s' → KeptFrom kept s s'
unfolding truncate_prefix
truncate_prefix-KeptFrom kept s s' w e = elim (Bool-cases (leb kept s.commit_index)) [
  | inr beyond ↦ absurd (no_outcome (rw beyond at e))
  | inl inside ↦
      let le = leb→le kept s.commit_index inside in
      let room : kept + 1 < 2 ^ 64 = omega (arith, w.commit, w.log.bound) in
      let last = last-truncate_prefix kept s.log (omega (arith, w.commit)) in
      subst (KeptFrom kept s) (done-injective (rw inside at e)) (record {
        settled = record {
          log = truncate_prefix-IsWellFormed s.log w.log kept (omega arith);
          commit = omega (arith, w.commit, last);
        };
        commit = omega arith;
        kept = λ i lo hi. view-truncate_prefix s.log w.log kept (omega arith) i ∙ ground arith;
      })
]
  where
    no_outcome : {c : Core} → abort ≢ done c
    no_outcome z = cc

-- Entries of another cluster are committed as soon as they are in.
sync_entries-SettledKept :
    (req : SyncRequest) (s s' : Core)
    → Settled s
    → s.log.last_index + length req.entries + 1 < 2 ^ 64
    → sync_entries req s ≡ done s'
    → SettledKept s s'
unfolding sync_entries append_all set_current_term
sync_entries-SettledKept req s s' w room e =
    let (_, _, e₁) = >>=-eq-done (assert (req.start_index == add64 s.log.last_index 1)) _ e in
    let (last, _, e₂) = >>=-eq-done (expect (back req.entries)) _ e₁ in
    let added = append_entries req.entries s.log in
    let (_, taken, e₃) = >>=-eq-done (assert added.0) _ e₂ in
    let (_, _, e₄) = >>=-eq-done (assert (added.1.last_index == req.end_index)) _ e₃ in
    let p =
      append_all-PrefixKept s.commit_index req.entries s.log added.1 w.log w.commit room
        (ap (λ m. m >>= λ _. done added.1) taken) in
    let grown = record s { log = added.1; commit_index = added.1.last_index } in
    let q : SettledKept s grown = record {
      settled = record { log = p.well_formed; commit = omega arith };
      commit = p.last;
      kept = p.kept;
    } in
    subst (SettledKept s) (done-injective e₄) (
      SettledKept-trans q (
        SameEntries-SettledKept
          (record { entries = refl; first = refl; last = refl; commit = refl }) q.settled))

pub sync_request-SettledKept :
    (req : SyncRequest) (s s' : Core)
    → Settled s
    → s.log.last_index + length req.entries + 1 < 2 ^ 64
    → handle_sync_request req s ≡ done s'
    → SettledKept s s'
unfolding handle_sync_request
sync_request-SettledKept req s s' w room e =
    elim (Bool-cases (role_code s.role == role_code syncer)) [
      | inr voting ↦ subst (SettledKept s) (sync_ignored req s s' voting e) (itself s w)
      | inl syncing ↦ by_finish req.finish_begin_index refl (handled syncing)
    ]
  where
    itself : (s : Core) → Settled s → SettledKept s s
    itself s w = SameEntries-SettledKept (SameEntries-refl s) w

    outcome : Option ℕ → Outcome Core
    outcome finish = elim finish [
      | some begin ↦ done (record s { role = follower; begin_index = begin })
      | none ↦ sync_entries req s
    ]

    handled : role_code s.role == role_code syncer ≡ true → outcome req.finish_begin_index ≡ done s'
    handled syncing =
        sym (ap (λ b. if not b then done s else outcome req.finish_begin_index) syncing) ∙ e

    by_finish :
        (finish : Option ℕ)
        → req.finish_begin_index ≡ finish
        → outcome req.finish_begin_index ≡ done s'
        → SettledKept s s'
    by_finish none same h = sync_entries-SettledKept req s s' w room (sym (ap outcome same) ∙ h)
    by_finish (some begin) same h =
        subst (SettledKept s) (done-injective (sym (ap outcome same) ∙ h)) (
          SameEntries-SettledKept
            (record { entries = refl; first = refl; last = refl; commit = refl }) w)
