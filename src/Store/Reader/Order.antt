-- ===== src/Store/Reader/Order.antt =====
-- The reader hands over the commands of the committed entries in the order of the log, each once,
-- in whatever order its threads take their steps.
use mathlib.Core.List.{append-nil}
use mathlib.Core.Path.{subst}
use my_super_ledger.Prelude.{
  ℕ, ◌+◌, ◌-◌, ◌^◌, ◌≤◌, ◌<◌, ◌≡◌, refl, ◌∙◌, ap, sym, true, false, some, List, [], ◌∷◌, ◌++◌, done,
  length, leb, ◌==◌, arith, Bool-cases, inl, inr, ==→eq, leb-false→lt, add64, sub64,
}
use my_super_ledger.Raft.Log.Defs.{LogEntry}
use my_super_ledger.Raft.Log.View.{IsWellFormed, view}
use my_super_ledger.Raft.Log.Batch.{get_entries_lem}
use my_super_ledger.Raft.Core.State.{Core}
use my_super_ledger.Store.Reader.Defs.{
  Bundle, Codec, Task, Reader, Action, load_entries, take_task, end_task, read_next,
  decrypt_entries, committed_entries, max_queue_size, load_task, take_front, sync_load,
}
use my_super_ledger.Store.Reader.Queue.{
  entries_from, entries_from-append, entries_from_lem, decrypt_entries-append, IsReadable, readable,
  Queued, Queued-le, Queued-snoc,
}

-- A replica whose committed entries after the offset are those of the sequence, and still there.
pub record Serves (f : ℕ → LogEntry) (offset : ℕ) (s : Core) : Type 0 where
  pub well_formed : IsWellFormed s.log
  pub inside : s.commit_index ≤ s.log.last_index
  pub reaches : s.log.first_index ≤ offset + 1
  pub committed : (i : ℕ) → offset < i → i ≤ s.commit_index → view s.log i ≡ some (f i)
  pub small : s.max_len_in_bytes < 2 ^ 63

abbrev pub Served : (ℕ → LogEntry) → ℕ → Action → Type 0
Served f offset (load_entries s) = Serves f offset s
Served f offset take_task = Unit {0}
Served f offset (end_task k) = Unit {0}
Served f offset (read_next s) = Serves f offset s

abbrev pub AllServed : (ℕ → LogEntry) → ℕ → List Action → Type 0
AllServed f offset [] = Unit {0}
AllServed f offset (a ∷ rest) = Served f offset a × AllServed f offset rest

module _ {C E : Type 0} (cod : Codec C E) (sizes : (e : LogEntry) → cod.byte_size e < 2 ^ 63)
    (f : ℕ → LogEntry) (offset : ℕ) (ok : IsReadable cod f offset) where
  -- What has been handed over, with what is in the cache, are the bundles of the first entries
  -- after the offset; the queue holds the entries behind them, up to the loaded index.
  pub record InOrder (out : List (Bundle C E)) (r : Reader C E) : Type 0 where
    pub taken : ℕ
    pub read :
        decrypt_entries cod (entries_from f (offset + 1) taken) ≡ done (out ++ r.cached_bundles)
    pub queued : Queued cod f (offset + 1 + taken) r.task_queue (r.loaded_index + 1)
    pub sync : r.async_load ≡ false → r.task_queue ≡ []

  loaded-lem :
      (s : Core) (loaded : ℕ)
      → Serves f offset s
      → offset ≤ loaded
      → loaded < s.commit_index
      → (es : List LogEntry) × (committed_entries cod
            (add64 loaded 1)
            (sub64 s.commit_index loaded)
            s
          ≡ done es)
        × (es ≡ entries_from f (loaded + 1) (length es))
        × (loaded + length es ≤ s.commit_index)
  unfolding committed_entries
  loaded-lem s loaded v lo hi =
      let bound = v.well_formed.bound in
      let start : add64 loaded 1 ≡ loaded + 1 = omega (arith, v.inside, bound) in
      let size : sub64 s.commit_index loaded ≡ s.commit_index - loaded =
        omega (arith, v.inside, bound) in
      let fits : leb (sub64 (add64 (loaded + 1) (s.commit_index - loaded)) 1) s.commit_index
          ≡ true =
        ground (arith, v.inside, bound) in
      let (es, run, batch) =
        get_entries_lem cod.byte_size sizes s.log v.well_formed s.max_len_in_bytes v.small
          (loaded + 1) (s.commit_index - loaded) (omega (arith, v.reaches))
          (omega (arith, v.inside)) in
      let run' : committed_entries cod (loaded + 1) (s.commit_index - loaded) s ≡ done es =
        rw fits run in
      (
        es,
        subst (λ j. committed_entries cod j (sub64 s.commit_index loaded) s ≡ done es) (sym start)
            (subst (λ n. committed_entries cod (loaded + 1) n s ≡ done es) (sym size) run'),
        entries_from_lem f (loaded + 1) es (λ k lt.
            sym (batch.contiguous k lt)
            ∙ v.committed (loaded + 1 + k) (omega arith) (omega (arith, batch.count))),
        omega (arith, batch.count),
      )

  extend :
      (taken n : ℕ) (us bs : List (Bundle C E))
      → decrypt_entries cod (entries_from f (offset + 1) taken) ≡ done us
      → decrypt_entries cod (entries_from f (offset + 1 + taken) n) ≡ done bs
      → decrypt_entries cod (entries_from f (offset + 1) (taken + n)) ≡ done (us ++ bs)
  extend taken n us bs h g =
      ap (decrypt_entries cod) (entries_from-append f (offset + 1) taken n)
      ∙ decrypt_entries-append cod f (entries_from f (offset + 1) taken)
          (entries_from f (offset + 1 + taken) n) us bs h g

  module _ (out : List (Bundle C E)) (r : Reader C E) (v : InOrder out r) where
    offset-le-loaded : offset ≤ r.loaded_index
    offset-le-loaded =
        omega
          (arith, Queued-le cod f (offset + 1 + v.taken) r.task_queue (r.loaded_index + 1) v.queued)

    pub load_task-InOrder :
        (s : Core)
        → Serves f offset s
        → r.async_load ≡ true
        → (r' : Reader C E) × (load_task cod s r ≡ done r') × InOrder out r'
    unfolding load_task
    load_task-InOrder s ok' on = elim (Bool-cases (leb max_queue_size (length r.task_queue))) [
      | inl full ↦ (r, rw full refl, v)
      | inr room ↦ elim (Bool-cases (leb s.commit_index r.loaded_index)) [
        | inl up_to_date ↦ (r, rw (room, up_to_date) refl, v)
        | inr behind ↦
            let lt = leb-false→lt s.commit_index r.loaded_index behind in
            let (es, run, same, within) = loaded-lem s r.loaded_index ok' offset-le-loaded lt in
            let sum : r.loaded_index + 1 + length es ≡ add64 r.loaded_index (length es) + 1 =
              omega (arith, ok'.inside, ok'.well_formed.bound) in
            let ts = r.task_queue ++ record { entries = es; bundles = []; flag = 0 } ∷ [] in
            (
              record r { loaded_index = add64 r.loaded_index (length es); task_queue = ts },
              rw (room, behind, run) refl,
              record {
                taken = v.taken;
                read = v.read;
                queued = subst (Queued cod f (offset + 1 + v.taken) ts) sum (
                    Queued-snoc cod f (offset + 1 + v.taken) r.task_queue (r.loaded_index + 1) es
                      v.queued same);
                sync = λ off. absurd (ground (arith, on, off));
              },
            )
      ]
    ]

    emptied :
        r.cached_bundles ≡ [] → decrypt_entries cod (entries_from f (offset + 1) v.taken) ≡ done out
    emptied none_left = v.read ∙ ap done (ap (λ bs. out ++ bs) none_left ∙ append-nil out)

    pub take_front-InOrder :
        (ts : List (Task C E))
        → r.task_queue ≡ ts
        → r.cached_bundles ≡ []
        → r.async_load ≡ true
        → InOrder out (take_front ts r)
    take_front-InOrder [] same none_left on = v
    take_front-InOrder (t ∷ ts) same none_left on = elim (Bool-cases (t.flag == 2)) [
      | inr other ↦ rw other v
      | inl ended ↦
          let q =
            subst (λ l. Queued cod f (offset + 1 + v.taken) l (r.loaded_index + 1)) same v.queued in
          let bs =
            subst (λ es. decrypt_entries cod es ≡ done t.bundles) q.0.consecutive
              (q.0.ended (==→eq t.flag 2 ended)) in
          let next : offset + 1 + v.taken + length t.entries
              ≡ offset + 1 + (v.taken + length t.entries) =
            omega arith in
          rw ended (record {
            taken = v.taken + length t.entries;
            read = extend v.taken (length t.entries) out t.bundles (emptied none_left) bs;
            queued = subst (λ j. Queued cod f j ts (r.loaded_index + 1)) next q.1;
            sync = λ off. absurd (ground (arith, on, off));
          })
    ]

    pub sync_load-InOrder :
        (s : Core)
        → Serves f offset s
        → r.cached_bundles ≡ []
        → r.async_load ≡ false
        → (r' : Reader C E) × (sync_load cod s r ≡ done r') × InOrder out r'
    unfolding sync_load
    sync_load-InOrder s ok' none_left off = elim (Bool-cases (leb s.commit_index r.loaded_index)) [
      | inl up_to_date ↦ (r, rw up_to_date refl, v)
      | inr behind ↦
          let lt = leb-false→lt s.commit_index r.loaded_index behind in
          let (es, run, same, within) = loaded-lem s r.loaded_index ok' offset-le-loaded lt in
          let q =
            subst (λ l. Queued cod f (offset + 1 + v.taken) l (r.loaded_index + 1)) (v.sync off)
              v.queued in
          let (bs, read) =
            readable cod f offset ok (offset + 1 + v.taken) (length es) (omega arith) in
          let read' : decrypt_entries cod es ≡ done bs =
            ap (decrypt_entries cod) (same ∙ ap (λ j. entries_from f j (length es)) (sym q))
            ∙ read in
          let sum : offset + 1 + (v.taken + length es) ≡ add64 r.loaded_index (length es) + 1 =
            omega (arith, ok'.inside, ok'.well_formed.bound) in
          (
            record r { loaded_index = add64 r.loaded_index (length es); cached_bundles = bs },
            rw (behind, run, read') refl,
            record {
              taken = v.taken + length es;
              read = extend v.taken (length es) out bs (emptied none_left) read;
              queued =
                  subst
                    (λ l.
                      Queued cod f (offset + 1 + (v.taken + length es)) l
                        (add64 r.loaded_index (length es) + 1))
                    (sym (v.sync off)) sum;
              sync = v.sync;
            },
          )
    ]
