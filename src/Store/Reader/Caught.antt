-- ===== src/Store/Reader/Caught.antt =====
-- When the wait for a leader to be ready ends, the reader has handed over every committed command.
use mathlib.Core.List.{append-nil, append_assoc}
use mathlib.Core.Path.{subst}
use my_super_ledger.Prelude.{
  ℕ, zero, suc, ◌+◌, ◌-◌, ◌^◌, ◌<◌, ◌≤◌, ◌≡◌, ◌≢◌, refl, ◌∙◌, ap, sym, true, false, Bool, some,
  List, [], ◌∷◌, ◌++◌, inl, inr, done, ◌==◌, ◌&&◌, leb, arith, Bool-cases, if◌then◌else◌,
  >>=-eq-done, done-injective, ==→eq,
}
use my_super_ledger.Raft.Log.Defs.{LogEntry, get_entry, dummy_entry}
use my_super_ledger.Raft.Log.View.{view, get_entry-eq-view}
use my_super_ledger.Raft.Core.State.{Core, role_code, syncer}
use my_super_ledger.Store.Reader.Defs.{
  Bundle, Codec, Reader, Action, decrypt_entries, act, act_all, reader_at,
}
use my_super_ledger.Store.Reader.Queue.{
  entries_from, entries_from-append, decrypt_entries-append, IsReadable, Queued-le,
}
use my_super_ledger.Store.Reader.Order.{Serves, Served, AllServed}
use my_super_ledger.Store.Reader.Runs.{Ordered, begin-InOrder, act-InOrder}
use my_super_ledger.Store.Reader.Marks.{last_id, Ascending, Ascending-last, IsMarked, act-mark}
use my_super_ledger.Store.Reader.Ids.{
  AtMost, AtMost-last, IsNumbered, entries-Ascending, entries-AtMost, noops-empty,
}
use my_super_ledger.Store.Reader.Ready.{
  keep_waiting, stepped_down, leader_ready, entry_at_index, scan_noops, check_ready,
}

waiting : {last : ℕ} → keep_waiting ≢ leader_ready last
waiting h = cc

entry_at_index_lem :
    (f : ℕ → LogEntry) (offset : ℕ) (s : Core) (i : ℕ)
    → Serves f offset s
    → offset < i
    → i ≤ s.commit_index
    → entry_at_index i s ≡ done (f i)
unfolding entry_at_index
entry_at_index_lem f offset s i v lo hi =
    let inside : leb i s.commit_index ≡ true = ground arith in
    let later : (i == 0) ≡ false = ground arith in
    let got : get_entry i s.log ≡ some (f i) =
      get_entry-eq-view s.log v.well_formed i
      ∙ ap (λ b. if b then some dummy_entry else view s.log i) later
      ∙ v.committed i lo hi in
    rw (inside, got)
      (elim (Bool-cases (role_code s.role == role_code syncer)) [
        | inl on ↦ rw on refl
        | inr off ↦ rw off refl
      ])

-- A scan that finds the leader ready has met no-ops only.
scan_noops_lem :
    (f : ℕ → LogEntry) (offset expected : ℕ) (s : Core) (n i last : ℕ)
    → Serves f offset s
    → s.commit_index ≡ s.log.last_index
    → offset < i
    → scan_noops expected s n i ≡ done (leader_ready last)
    → (j : ℕ) → i ≤ j
    → j ≤ s.log.last_index
    → (f j).noop ≡ true
unfolding scan_noops
scan_noops_lem f offset expected s zero i last v all lo h j le hi = cc
scan_noops_lem f offset expected s (suc n) i last v all lo h j le hi =
    let (e, got, rest) = >>=-eq-done (entry_at_index i s) _ h in
    let same : f i ≡ e =
      done-injective (sym (entry_at_index_lem f offset s i v lo (omega arith)) ∙ got) in
    elim (Bool-cases e.noop) [
      | inr operation ↦ absurd (waiting (done-injective (rw operation at rest)))
      | inl noop ↦ elim (Bool-cases (i == j)) [
        | inl here ↦ ap (λ k. (f k).noop) (sym (==→eq i j here)) ∙ ap (λ x. x.noop) same ∙ noop
        | inr other ↦ elim (Bool-cases (i == s.log.last_index && e.term == expected)) [
          | inl end ↦ absurd (ground (arith, end, other))
          | inr more ↦
              scan_noops_lem f offset expected s n (i + 1) last v all (omega arith)
                (rw (noop, more) at rest) j (ground (arith, other)) hi
        ]
      ]
    ]

-- What a ready round has found.
check_ready_lem :
    {C E : Type 0} (f : ℕ → LogEntry) (offset expected : ℕ) (s : Core) (r : Reader C E) (last : ℕ)
    → Serves f offset s
    → offset ≤ r.applied_index
    → check_ready expected s r ≡ done (leader_ready last)
    → (s.log.current_term ≡ expected)
      × (r.loaded_index ≡ s.commit_index)
      × (s.commit_index ≡ s.log.last_index)
      × ((j : ℕ) → r.applied_index < j → j ≤ s.log.last_index → (f j).noop ≡ true)
unfolding check_ready
check_ready_lem f offset expected s r last v lo h =
    elim (Bool-cases (s.log.current_term == expected)) [
      | inr other ↦ absurd (not_down (done-injective (rw other at h)))
      | inl term ↦ elim (Bool-cases (r.loaded_index == s.commit_index)) [
        | inr behind ↦ absurd (waiting (done-injective (rw (term, behind) at h)))
        | inl loaded ↦ elim (Bool-cases (s.commit_index == s.log.last_index)) [
          | inr ahead ↦ absurd (waiting (done-injective (rw (term, loaded, ahead) at h)))
          | inl closed ↦
              let all = ==→eq s.commit_index s.log.last_index closed in
              (
                ==→eq s.log.current_term expected term,
                ==→eq r.loaded_index s.commit_index loaded,
                all,
                λ j lt le.
                    scan_noops_lem f offset expected s (s.log.last_index - r.applied_index)
                      (r.applied_index + 1) last v all (omega arith)
                      (rw (term, loaded, closed) at h) j (omega arith) le,
              )
        ]
      ]
    ]
  where
    not_down : {l : ℕ} → stepped_down ≢ leader_ready l
    not_down e = cc

-- No id is above the last one and at most that.
nothing_between :
    {C E : Type 0} (cod : Codec C E) (hi m : ℕ) (bs : List (Bundle C E))
    → hi ≤ m
    → Ascending cod m bs
    → AtMost cod hi bs
    → bs ≡ []
nothing_between cod hi m [] le up low = refl
nothing_between cod hi m (b ∷ bs) le up low = absurd (omega (arith, up.0, low.0))

module _ {C E : Type 0} (cod : Codec C E) (sizes : (e : LogEntry) → cod.byte_size e < 2 ^ 63)
    (f : ℕ → LogEntry) (offset : ℕ) (ok : IsReadable cod f offset)
    (ids : IsNumbered cod f offset) where
  act-Ordered :
      (a : Action) (out o : List (Bundle C E)) (r r' : Reader C E)
      → Served f offset a
      → Ordered cod sizes f offset ok out r
      → act cod a r ≡ done (o, r')
      → Ordered cod sizes f offset ok (out ++ o) r'
  act-Ordered a out o r r' h v run =
      let (o1, r1, again, v1) = act-InOrder cod sizes f offset ok a out r h v in
      subst (λ q. Ordered cod sizes f offset ok (out ++ q.0) q.1) (done-injective (sym again ∙ run))
        v1

  Ordered-Ascending :
      (out : List (Bundle C E)) (r : Reader C E)
      → Ordered cod sizes f offset ok out r
      → Ascending cod offset (out ++ r.cached_bundles)
  Ordered-Ascending out r v =
      entries-Ascending cod f offset ids v.taken (offset + 1) offset (out ++ r.cached_bundles)
        (omega arith) (omega arith) v.read

  act_all-mark :
      (actions : List Action) (out o : List (Bundle C E)) (r r' : Reader C E)
      → AllServed f offset actions
      → Ordered cod sizes f offset ok out r
      → IsMarked cod offset out ([], r)
      → act_all cod actions r ≡ done (o, r')
      → Ordered cod sizes f offset ok (out ++ o) r' × IsMarked cod offset out (o, r')
  unfolding act_all
  act_all-mark [] out o r r' h v same run =
      subst (λ q. Ordered cod sizes f offset ok (out ++ q.0) q.1 × IsMarked cod offset out q)
        (done-injective run)
        (subst (λ us. Ordered cod sizes f offset ok us r) (sym (append-nil out)) v, same)
  act_all-mark (a ∷ rest) out o r r' h v same run =
      let ((o1, r1), first, run1) = >>=-eq-done (act cod a r) _ run in
      let ((o2, r2), others, run2) = >>=-eq-done (act_all cod rest r1) _ run1 in
      let v1 = act-Ordered a out o1 r r1 h.0 v first in
      let up = Ordered-Ascending (out ++ o1) r1 v1 in
      let same1 =
        act-mark cod a offset out o1 r r1 first
          (subst (Ascending cod offset) (append_assoc out o1 r1.cached_bundles) up) same in
      let (v2, same2) =
        act_all-mark rest (out ++ o1) o2 r1 r2 h.1 v1
          (same1.0 ∙ ap (last_id cod offset) (sym (append-nil (out ++ o1))), same1.1) others in
      subst (λ q. Ordered cod sizes f offset ok (out ++ q.0) q.1 × IsMarked cod offset out q)
        (done-injective run2)
        (
          subst (λ us. Ordered cod sizes f offset ok us r2) (append_assoc out o1 o2) v2,
          (same2.0 ∙ ap (last_id cod offset) (append_assoc out o1 o2), same2.1),
        )

  -- After any run of the reader's threads from an offset, at replicas that serve the same
  -- committed sequence, with sizes below 2^63 and entries that can be read, each command with the
  -- index of its entry as its id, a round of the wait that finds the leader ready has the expected
  -- term, every command of the log after the offset that has events has been handed over, in order
  -- and once, and the reader has come back from applying the last one.
  pub ready-caught_up :
      (async : Bool) (actions : List Action) (out : List (Bundle C E)) (r : Reader C E) (s : Core)
      (expected last : ℕ)
      → AllServed f offset actions
      → Serves f offset s
      → act_all cod actions (reader_at async offset) ≡ done (out, r)
      → check_ready expected s r ≡ done (leader_ready last)
      → (s.log.current_term ≡ expected)
        × (decrypt_entries cod (entries_from f (offset + 1) (s.log.last_index - offset)) ≡ done out)
        × (r.applied_index ≡ last_id cod offset out)
  ready-caught_up async actions out r s expected last h v run ready =
      let start : Ordered cod sizes f offset ok [] (reader_at async offset) =
        begin-InOrder cod sizes f offset ok async in
      let (o, m) =
        act_all-mark actions [] out (reader_at async offset) r h start (omega arith, omega arith)
          run in
      let (term, loaded, all, noops) = check_ready_lem f offset expected s r last v m.1 ready in
      let le = Queued-le cod f (offset + 1 + o.taken) r.task_queue (r.loaded_index + 1) o.queued in
      let low =
        entries-AtMost cod f offset ids r.applied_index o.taken (offset + 1)
          (out ++ r.cached_bundles) (omega arith) (λ i from to beyond. noops i beyond (omega arith))
          o.read in
      let (last_low, cached_low) =
        AtMost-last cod r.applied_index offset out r.cached_bundles m.1 low in
      let inside =
        entries-AtMost cod f offset ids (offset + o.taken) o.taken (offset + 1)
          (out ++ r.cached_bundles) (omega arith) (λ i from to beyond. absurd (omega arith))
          o.read in
      let (last_inside, _) =
        AtMost-last cod (offset + o.taken) offset out r.cached_bundles (omega arith) inside in
      let applied : r.applied_index ≡ last_id cod offset out = omega (arith, m.0, last_low) in
      let (_, above) = Ascending-last cod offset out r.cached_bundles (Ordered-Ascending out r o) in
      let none_cached =
        nothing_between cod r.applied_index (last_id cod offset out) r.cached_bundles (omega arith)
          above cached_low in
      let left = s.log.last_index - offset - o.taken in
      let rest =
        noops-empty cod f offset left (offset + 1 + o.taken)
          (λ i from to. noops i (omega arith) (omega arith)) in
      let read =
        decrypt_entries-append cod f (entries_from f (offset + 1) o.taken)
          (entries_from f (offset + 1 + o.taken) left) (out ++ r.cached_bundles) [] o.read rest in
      let size : s.log.last_index - offset ≡ o.taken + left = omega arith in
      let bundles : (out ++ r.cached_bundles) ++ [] ≡ out =
        append-nil (out ++ r.cached_bundles) ∙ ap (λ bs. out ++ bs) none_cached ∙ append-nil out in
      (
        term,
        ap (λ n. decrypt_entries cod (entries_from f (offset + 1) n)) size
            ∙ ap (decrypt_entries cod) (entries_from-append f (offset + 1) o.taken left)
            ∙ read
            ∙ ap done bundles,
        applied,
      )
