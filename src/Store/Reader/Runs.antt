-- ===== src/Store/Reader/Runs.antt =====
-- Runs of the reader's threads.
use mathlib.Core.List.{append-nil, append_assoc}
use mathlib.Core.Path.{subst}
use my_super_ledger.Prelude.{
  ℕ, ◌+◌, ◌^◌, ◌<◌, ◌≡◌, refl, ◌∙◌, ap, sym, Bool, List, [], ◌∷◌, ◌++◌, done, ◌>>=◌, arith,
  Bool-cases, inl, inr, max, done-injective,
}
use my_super_ledger.Raft.Log.Defs.{LogEntry}
use my_super_ledger.Raft.Core.State.{Core}
use my_super_ledger.Store.Reader.Defs.{
  Bundle, Codec, Reader, Action, load_entries, take_task, end_task, read_next, decrypt_entries,
  claim, finish, take_front, fill_cache, pop_bundle, load_next, act, act_all, reader_at,
}
use my_super_ledger.Store.Reader.Branches.{fill-sync, load-act}
use my_super_ledger.Store.Reader.Queue.{
  entries_from, IsReadable, queued_count, Queued-count, claim-Queued, finish-Queued,
}
use my_super_ledger.Store.Reader.Order.{
  Serves, Served, AllServed, InOrder, load_task-InOrder, take_front-InOrder, sync_load-InOrder,
}

module _ {C E : Type 0} (cod : Codec C E) (sizes : (e : LogEntry) → cod.byte_size e < 2 ^ 63)
    (f : ℕ → LogEntry) (offset : ℕ) (ok : IsReadable cod f offset) where
  abbrev pub Ordered : List (Bundle C E) → Reader C E → Type 0
  Ordered = InOrder cod sizes f offset ok

  fill-InOrder :
      (s : Core) (out : List (Bundle C E)) (bs : List (Bundle C E)) (r : Reader C E)
      → Serves f offset s
      → r.cached_bundles ≡ bs
      → Ordered out r
      → (r' : Reader C E) × (fill_cache cod s r ≡ done r') × Ordered out r'
  unfolding fill_cache
  fill-InOrder s out (b ∷ bs) r ok' same v = (r, rw same refl, v)
  fill-InOrder s out [] r ok' same v = elim (Bool-cases r.async_load) [
    | inl on ↦ (
      take_front r.task_queue r,
      rw (same, on) refl,
      take_front-InOrder cod sizes f offset ok out r v r.task_queue refl same on,
    )
    | inr off ↦
        let (r', run, v') = sync_load-InOrder cod sizes f offset ok out r v s ok' same off in
        (r', fill-sync cod s r same off ∙ run, v')
  ]

  pop-InOrder :
      (out : List (Bundle C E)) (bs : List (Bundle C E)) (r : Reader C E)
      → r.cached_bundles ≡ bs
      → Ordered out r
      → Ordered (out ++ (pop_bundle cod bs r).0) (pop_bundle cod bs r).1
  pop-InOrder out [] r same v = subst (λ us. Ordered us r) (sym (append-nil out)) v
  pop-InOrder out (b ∷ bs) r same v = record {
    taken = v.taken;
    read = v.read ∙ ap done (ap (λ us. out ++ us) same ∙ sym (append_assoc out (b ∷ []) bs));
    queued = v.queued;
    sync = v.sync;
  }

  pub act-InOrder :
      (a : Action) (out : List (Bundle C E)) (r : Reader C E)
      → Served f offset a
      → Ordered out r
      → (o : List (Bundle C E)) × (r' : Reader C E) × (act cod a r ≡ done (o, r'))
        × Ordered (out ++ o) r'
  unfolding act load_next claim finish
  act-InOrder (load_entries s) out r h v = elim (Bool-cases r.async_load) [
    | inl on ↦
        let (r', run, v') = load_task-InOrder cod sizes f offset ok out r v s h on in
        (
          [],
          r',
          load-act cod s r on ∙ ap (λ m. m >>= λ r₁. done ([], r₁)) run,
          subst (λ us. Ordered us r') (sym (append-nil out)) v',
        )
    | inr off ↦ ([], r, rw off refl, subst (λ us. Ordered us r) (sym (append-nil out)) v)
  ]
  act-InOrder take_task out r h v = (
    [],
    record r { task_queue = claim r.task_queue },
    refl,
    record {
      taken = v.taken;
      read = v.read ∙ ap (λ us. done (us ++ r.cached_bundles)) (sym (append-nil out));
      queued = claim-Queued cod f (offset + 1 + v.taken) r.task_queue (r.loaded_index + 1) v.queued;
      sync = λ off. ap claim (v.sync off);
    },
  )
  act-InOrder (end_task k) out r h v =
      let (ts, run, q) =
        finish-Queued cod f offset ok k (offset + 1 + v.taken) r.task_queue (r.loaded_index + 1)
          (omega arith) v.queued in
      (
        [],
        record r { task_queue = ts },
        rw run refl,
        record {
          taken = v.taken;
          read = v.read ∙ ap (λ us. done (us ++ r.cached_bundles)) (sym (append-nil out));
          queued = q;
          sync =
              λ off. done-injective (sym (subst (λ l. finish cod k l ≡ done ts) (v.sync off) run));
        },
      )
  act-InOrder (read_next s) out r h v =
      let r1 = record r { applied_index = max r.applied_index r.applying_index } in
      let v1 : Ordered out r1 = record {
        taken = v.taken;
        read = v.read;
        queued = v.queued;
        sync = v.sync;
      } in
      let (r', run, v') = fill-InOrder s out r.cached_bundles r1 h refl v1 in
      (
        (pop_bundle cod r'.cached_bundles r').0,
        (pop_bundle cod r'.cached_bundles r').1,
        rw run refl,
        pop-InOrder out r'.cached_bundles r' refl v',
      )

  act_all-InOrder :
      (actions : List Action) (out : List (Bundle C E)) (r : Reader C E)
      → AllServed f offset actions
      → Ordered out r
      → (o : List (Bundle C E)) × (r' : Reader C E) × (act_all cod actions r ≡ done (o, r'))
        × Ordered (out ++ o) r'
  unfolding act_all
  act_all-InOrder [] out r h v = ([], r, refl, subst (λ us. Ordered us r) (sym (append-nil out)) v)
  act_all-InOrder (a ∷ rest) out r h v =
      let (o, r1, first, v1) = act-InOrder a out r h.0 v in
      let (os, r2, others, v2) = act_all-InOrder rest (out ++ o) r1 h.1 v1 in
      (o ++ os, r2, rw (first, others) refl, subst (λ us. Ordered us r2) (append_assoc out o os) v2)

  pub begin-InOrder : (async : Bool) → Ordered [] (reader_at async offset)
  unfolding decrypt_entries
  begin-InOrder async = record { taken = 0; read = refl; queued = omega arith; sync = λ off. refl }

  -- Whatever steps the load thread, the decrypt threads and the reader take, in either mode, no
  -- step aborts, and the bundles handed over, with those in the cache, are the bundles of the
  -- first `n` entries after the offset, in the order of the log and each once; with `n` and what
  -- waits in the queue, all that is loaded is accounted for. The replica serves the same committed
  -- sequence at every look, with sizes below 2^63, and every entry after the offset can be
  -- deciphered and parsed.
  pub read_in_order :
      (async : Bool) (actions : List Action)
      → AllServed f offset actions
      → (out : List (Bundle C E)) × (r : Reader C E) × (act_all cod actions (reader_at async offset)
          ≡ done (out, r))
        × (n : ℕ) × (offset + n + queued_count cod f r.task_queue ≡ r.loaded_index)
        × (decrypt_entries cod (entries_from f (offset + 1) n) ≡ done (out ++ r.cached_bundles))
  read_in_order async actions h =
      let (out, r, run, v) =
        act_all-InOrder actions [] (reader_at async offset) h (begin-InOrder async) in
      let count =
        Queued-count cod f (offset + 1 + v.taken) r.task_queue (r.loaded_index + 1) v.queued in
      (out, r, run, v.taken, omega arith, v.read)
