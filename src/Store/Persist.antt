-- ===== src/Store/Persist.antt =====
-- The entries that `persistAsync` hands to the log store carry the indices that a leader expects.
use mathlib.Core.Path.{subst}
use my_super_ledger.Prelude.{
  length-append, ℕ, ◌+◌, ◌<◌, ◌^◌, String, Option, List, [], ◌∷◌, ◌++◌, length, ◌≡◌, refl, sym, ap,
  arith, add64,
}
use my_super_ledger.Raft.Log.Defs.{LogEntry, SpecialTag}
use my_super_ledger.Raft.Log.View.{Numbered}
use my_super_ledger.Raft.Log.Append.{Numbered-append}
use my_super_ledger.Store.Defs.{EventStore, PersistEntry, persist_async, log_entry, number_events}

-- The log entries of the queue.
abbrev pub queued_entries : {C E : Type 0} → List (PersistEntry C E) → List LogEntry
queued_entries [] = []
queued_entries (p ∷ ps) = p.entry ∷ queued_entries ps

queued-append :
    {C E : Type 0} (ps : List (PersistEntry C E)) (p : PersistEntry C E)
    → queued_entries (ps ++ p ∷ []) ≡ queued_entries ps ++ p.entry ∷ []
queued-append [] p = refl
queued-append (q ∷ ps) p = ap (λ es. q.entry ∷ es) (queued-append ps p)

queued_length :
    {C E : Type 0} (ps : List (PersistEntry C E)) → length (queued_entries ps) ≡ length ps
queued_length [] = refl
queued_length (p ∷ ps) = omega (arith, queued_length ps)

module _ {C E : Type 0} (tag : C → Option SpecialTag) (key : ℕ) where
  -- A run of `persistAsync`, one call for a command, with the ids as `processCommand` counts them.
  unfoldable pub persist_all :
      ℕ → List (C × Option ℕ × List E × ℕ × String) → EventStore C E → EventStore C E
  unfolding persist_async
  persist_all last [] st = st
  persist_all last ((c, handle, [], code, message) ∷ rest) st =
      persist_all last rest (persist_async tag key last c handle [] code message st)
  persist_all last ((c, handle, e ∷ es, code, message) ∷ rest) st =
      persist_all (add64 last 1) rest
        (persist_async tag key (add64 last 1) c handle (e ∷ es) code message st)

  -- From a queue with consecutive indices up to the last command's, with ids below 2^64 - 1, a run
  -- leaves a queue with consecutive indices, whichever commands gave no events.
  pub persist_all-Numbered :
      (base last : ℕ) (cs : List (C × Option ℕ × List E × ℕ × String)) (st : EventStore C E)
      → last + length cs + 1 < 2 ^ 64
      → Numbered base (queued_entries st.queue)
      → last + 1 ≡ base + length st.queue
      → Numbered base (queued_entries (persist_all last cs st).queue)
  unfolding persist_all
  persist_all-Numbered base last [] st b n at = n
  persist_all-Numbered base last ((c, handle, [], code, message) ∷ rest) st b n at =
      persist_all-Numbered base last rest (persist_async tag key last c handle [] code message st)
        (omega arith) n at
  persist_all-Numbered base last ((c, handle, e ∷ es, code, message) ∷ rest) st b n at =
      let next : add64 last 1 ≡ last + 1 = omega arith in
      let p : PersistEntry C E = record {
        command = c;
        events = number_events (add64 last 1) 0 (e ∷ es);
        entry = log_entry key (tag c) st.log_term (add64 last 1);
      } in
      let grown =
        Numbered-append base (queued_entries st.queue) p.entry n
          (omega (arith, next, at, queued_length st.queue)) in
      persist_all-Numbered base (add64 last 1) rest
        (persist_async tag key (add64 last 1) c handle (e ∷ es) code message st) (omega arith)
        (subst (Numbered base) (sym (queued-append st.queue p)) grown)
        (omega (arith, length-append st.queue (p ∷ []), next, at))
