-- ===== src/Store/Reader/Branches.antt =====
-- The branches of the reader's steps that look at its mode.
use my_super_ledger.Prelude.{◌≡◌, ◌∙◌, ap, true, false, [], ◌∷◌, done, ◌>>=◌, if◌then◌else◌}
use my_super_ledger.Raft.Core.State.{Core}
use my_super_ledger.Store.Reader.Defs.{
  Codec, Reader, load_entries, load_task, take_front, sync_load, fill_cache, act,
}

module _ {C E : Type 0} (cod : Codec C E) where
  pub fill-sync :
      (s : Core) (r : Reader C E)
      → r.cached_bundles ≡ []
      → r.async_load ≡ false
      → fill_cache cod s r ≡ sync_load cod s r
  unfolding fill_cache
  fill-sync s r same off =
      ap
        (λ bs. elim bs [
          | b ∷ bs' ↦ done r
          | [] ↦ if r.async_load then done (take_front r.task_queue r) else sync_load cod s r
        ])
        same
      ∙ ap (λ b. if b then done (take_front r.task_queue r) else sync_load cod s r) off

  pub fill-async :
      (s : Core) (r : Reader C E)
      → r.cached_bundles ≡ []
      → r.async_load ≡ true
      → fill_cache cod s r ≡ done (take_front r.task_queue r)
  unfolding fill_cache
  fill-async s r same on =
      ap
        (λ bs. elim bs [
          | b ∷ bs' ↦ done r
          | [] ↦ if r.async_load then done (take_front r.task_queue r) else sync_load cod s r
        ])
        same
      ∙ ap (λ b. if b then done (take_front r.task_queue r) else sync_load cod s r) on

  pub load-act :
      (s : Core) (r : Reader C E)
      → r.async_load ≡ true
      → act cod (load_entries s) r ≡ (load_task cod s r >>= λ r'. done ([], r'))
  unfolding act
  load-act s r on =
      ap (λ b. if b then (load_task cod s r >>= λ r'. done ([], r')) else done ([], r)) on
