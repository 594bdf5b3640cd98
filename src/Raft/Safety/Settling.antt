-- ===== src/Raft/Safety/Settling.antt =====
-- Handlers that add entries or commit them, at a settled node.
use my_super_ledger.Prelude.{
  ℕ, ◌+◌, ◌<◌, ◌^◌, false, ◌≡◌, refl, sym, ◌∙◌, ap, List, length, done, >>=-eq-done, done-injective,
  arith, Bool-cases, inl, inr, ltb, ◌==◌, add64,
}
use mathlib.Core.Path.{subst}
use my_super_ledger.Raft.Log.Defs.{LogEntry, Log}
use my_super_ledger.Raft.Log.View.{IsWellFormed, view}
use my_super_ledger.Raft.Log.Append.{appends_next, appended-IsWellFormed, view-appended}
use my_super_ledger.Raft.Core.State.{leader, candidate, role_code, Core, Readings, Reply}
use my_super_ledger.Raft.Core.Client.{ClientRequest, handle_client_requests}
use my_super_ledger.Raft.Core.Vote.{become_leader, noop_entry, count_votes, majority_number}
use my_super_ledger.Raft.Core.Lead.{advance_commit_index}
use my_super_ledger.Raft.Core.Main.{
  Output, append_entries_round, append_to_peers, request_vote_round, vote_from_peers,
}
use my_super_ledger.Raft.Safety.Commit.{advance_lem}
use my_super_ledger.Raft.Safety.Keep.{advance-log}
use my_super_ledger.Raft.Safety.Writes.{client_requests_lem}
use my_super_ledger.Raft.Safety.Settle.{SameEntries, Settled, SettledKept, SameEntries-SettledKept}
use my_super_ledger.Raft.Safety.Keeps.{SameEntries-refl}

pub client-SettledKept :
    (cs : List ClientRequest) (s : Core)
    → Settled s
    → s.log.last_index + length cs + 1 < 2 ^ 64
    → SettledKept s (handle_client_requests cs s).0
client-SettledKept cs s w room = elim (Bool-cases (role_code s.role == role_code leader)) [
  | inl leads ↦
      let x = client_requests_lem cs s (ground arith) w.log room in
      record {
        settled = record {
          log = x.extends.well_formed;
          commit = omega (arith, x.commit, x.extends.last, w.commit);
        };
        commit = omega (arith, x.commit);
        kept = λ i b. x.extends.old i (omega (arith, w.commit));
      }
  | inr other ↦
      subst (SettledKept s) (sym (turned_away cs s other))
        (SameEntries-SettledKept (SameEntries-refl s) w)
]
  where
    turned_away :
        (cs : List ClientRequest) (s : Core)
        → role_code s.role == role_code leader ≡ false
        → (handle_client_requests cs s).0 ≡ s
    turned_away cs s other = unfold handle_client_requests in rw other refl

pub become_leader-SettledKept :
    (r : Readings) (s s' : Core)
    → Settled s
    → s.log.last_index + 1 + 1 < 2 ^ 64
    → become_leader r s ≡ done s'
    → SettledKept s s'
unfolding become_leader
become_leader-SettledKept r s s' w room h =
    let next : add64 s.log.last_index 1 ≡ s.log.last_index + 1 = omega arith in
    let unchanged : s ≡ s' → SettledKept s s' =
      λ same. subst (SettledKept s) same (SameEntries-SettledKept (SameEntries-refl s) w) in
    elim (Bool-cases (role_code s.role == role_code candidate)) [
      | inr other ↦ unchanged (done-injective (rw other at h))
      | inl stands ↦
          elim (Bool-cases (ltb (1 + count_votes s.peers) (majority_number (length s.peers + 1)))) [
            | inl few ↦ unchanged (done-injective (rw (stands, few) at h))
            | inr enough ↦
                let won =
                  rw (stands, enough, appends_next s.log w.log (noop_entry r s) next) at h in
                subst (SettledKept s) (done-injective won) (record {
                  settled = record {
                    log = appended-IsWellFormed s.log w.log (noop_entry r s) next (omega arith);
                    commit = omega (arith, next, w.commit);
                  };
                  commit = omega arith;
                  kept = λ i b.
                      view-appended s.log w.log (noop_entry r s) i next ∙ ground (arith, w.commit);
                })
          ]
    ]

pub advance-SettledKept :
    (s s' : Core) (replies : List Reply)
    → Settled s
    → advance_commit_index s ≡ done (s', replies)
    → SettledKept s s'
advance-SettledKept s s' replies w h =
    let same = advance-log s s' replies h in
    elim (Bool-cases (s'.commit_index == s.commit_index)) [
      | inl still ↦
          SameEntries-SettledKept
            (record {
              entries = ap (λ (l : Log). l.entries) same;
              first = ap (λ (l : Log). l.first_index) same;
              last = ap (λ (l : Log). l.last_index) same;
              commit = ground arith;
            })
            w
      | inr moved ↦
          let c = advance_lem s s' replies h (ground arith) in
          record {
            settled = record {
              log = subst IsWellFormed (sym same) w.log;
              commit = omega (arith, c.inside, ap (λ (l : Log). l.last_index) same);
            };
            commit = omega (arith, c.later);
            kept = λ i b. ap (λ l. view l i) same;
          }
    ]

pub append_round-SameEntries :
    (byte_size : LogEntry → ℕ) (r : Readings) (s s' : Core) (outputs : List Output)
    → append_entries_round byte_size r s ≡ done (s', outputs)
    → SameEntries s s'
unfolding append_entries_round
append_round-SameEntries byte_size r s s' outputs h =
    elim (Bool-cases (role_code s.role == role_code leader)) [
      | inr other ↦ record {
        entries = ground arith;
        first = ground arith;
        last = ground arith;
        commit = ground arith;
      }
      | inl leads ↦
          let (p, sent, h₁) =
            >>=-eq-done (append_to_peers byte_size r 0 s s.peers) _ (rw leads at h) in
          subst (λ (x : Core × List Output). SameEntries s x.0) (done-injective h₁)
            (record { entries = refl; first = refl; last = refl; commit = refl })
    ]

pub vote_round-SameEntries :
    (r : Readings) (s s' : Core) (outputs : List Output)
    → request_vote_round r s ≡ done (s', outputs)
    → SameEntries s s'
unfolding request_vote_round
vote_round-SameEntries r s s' outputs h =
    elim (Bool-cases (role_code s.role == role_code candidate)) [
      | inr other ↦ record {
        entries = ground arith;
        first = ground arith;
        last = ground arith;
        commit = ground arith;
      }
      | inl stands ↦
          let (p, sent, h₁) = >>=-eq-done (vote_from_peers r 0 s s.peers) _ (rw stands at h) in
          subst (λ (x : Core × List Output). SameEntries s x.0) (done-injective h₁)
            (record { entries = refl; first = refl; last = refl; commit = refl })
    ]
