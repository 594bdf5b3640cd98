-- ===== src/Store/Reader/Marks.antt =====
-- The applied and the applying index of a reader: the later one is the last command handed over.
use mathlib.Core.List.{append-nil}
use mathlib.Core.Path.{subst}
use my_super_ledger.Prelude.{
  ℕ, ◌≤◌, ◌<◌, ◌≡◌, refl, ◌∙◌, ap, sym, List, [], ◌∷◌, ◌++◌, inl, inr, done, length, leb, ◌==◌, max,
  arith, Bool-cases, >>=-eq-done, done-injective, add64, sub64,
}
use my_super_ledger.Raft.Core.State.{Core}
use my_super_ledger.Store.Reader.Defs.{
  Bundle, Codec, Task, Reader, Action, load_entries, take_task, end_task, read_next,
  decrypt_entries, committed_entries, max_queue_size, load_task, finish, take_front, sync_load,
  fill_cache, pop_bundle, load_next, act,
}
use my_super_ledger.Store.Reader.Branches.{fill-sync, fill-async, load-act}

abbrev pub mark : {C E : Type 0} → Reader C E → ℕ
mark r = max r.applied_index r.applying_index

abbrev pub SameMarks : {C E : Type 0} → Reader C E → Reader C E → Type 0
SameMarks r r' = (r'.applied_index ≡ r.applied_index) × (r'.applying_index ≡ r.applying_index)

module _ {C E : Type 0} (cod : Codec C E) where
  load_task-SameMarks :
      (s : Core) (r r' : Reader C E) → load_task cod s r ≡ done r' → SameMarks r r'
  unfolding load_task
  load_task-SameMarks s r r' h = elim (Bool-cases (leb max_queue_size (length r.task_queue))) [
    | inl full ↦ subst (SameMarks r) (done-injective (rw full at h)) (refl, refl)
    | inr room ↦ elim (Bool-cases (leb s.commit_index r.loaded_index)) [
      | inl same ↦ subst (SameMarks r) (done-injective (rw (room, same) at h)) (refl, refl)
      | inr behind ↦
          let (es, _, last) =
            >>=-eq-done
              (committed_entries cod (add64 r.loaded_index 1) (sub64 s.commit_index r.loaded_index)
                s)
              _ (rw (room, behind) at h) in
          subst (SameMarks r) (done-injective last) (refl, refl)
    ]
  ]

  take_front-SameMarks : (ts : List (Task C E)) (r : Reader C E) → SameMarks r (take_front ts r)
  take_front-SameMarks [] r = (refl, refl)
  take_front-SameMarks (t ∷ ts) r = elim (Bool-cases (t.flag == 2)) [
    | inl ended ↦ rw ended (refl, refl)
    | inr other ↦ rw other (refl, refl)
  ]

  sync_load-SameMarks :
      (s : Core) (r r' : Reader C E) → sync_load cod s r ≡ done r' → SameMarks r r'
  unfolding sync_load
  sync_load-SameMarks s r r' h = elim (Bool-cases (leb s.commit_index r.loaded_index)) [
    | inl same ↦ subst (SameMarks r) (done-injective (rw same at h)) (refl, refl)
    | inr behind ↦
        let (es, _, rest) =
          >>=-eq-done
            (committed_entries cod (add64 r.loaded_index 1) (sub64 s.commit_index r.loaded_index) s)
            _ (rw behind at h) in
        let (bs, _, last) = >>=-eq-done (decrypt_entries cod es) _ rest in
        subst (SameMarks r) (done-injective last) (refl, refl)
  ]

  fill_cache-SameMarks :
      (s : Core) (bs : List (Bundle C E)) (r r' : Reader C E)
      → r.cached_bundles ≡ bs
      → fill_cache cod s r ≡ done r'
      → SameMarks r r'
  unfolding fill_cache
  fill_cache-SameMarks s (b ∷ bs) r r' same h =
      subst (SameMarks r) (done-injective (rw same at h)) (refl, refl)
  fill_cache-SameMarks s [] r r' same h = elim (Bool-cases r.async_load) [
    | inl on ↦
        subst (SameMarks r) (done-injective (sym (fill-async cod s r same on) ∙ h))
          (take_front-SameMarks r.task_queue r)
    | inr off ↦ sync_load-SameMarks s r r' (sym (fill-sync cod s r same off) ∙ h)
  ]

  -- The id of the last bundle, or the offset.
  abbrev pub last_id : ℕ → List (Bundle C E) → ℕ
  last_id offset [] = offset
  last_id offset (b ∷ bs) = last_id (cod.command_id b.command) bs

  -- Ids that ascend from `m`.
  abbrev pub Ascending : ℕ → List (Bundle C E) → Type 0
  Ascending m [] = Unit {0}
  Ascending m (b ∷ bs) = (m < cod.command_id b.command) × Ascending (cod.command_id b.command) bs

  pub Ascending-last :
      (m : ℕ) (bs cs : List (Bundle C E))
      → Ascending m (bs ++ cs)
      → (m ≤ last_id m bs) × Ascending (last_id m bs) cs
  Ascending-last m [] cs h = (omega arith, h)
  Ascending-last m (b ∷ bs) cs h =
      let (le, rest) = Ascending-last (cod.command_id b.command) bs cs h.1 in
      (omega (arith, h.0), rest)

  last_id-snoc :
      (m : ℕ) (bs : List (Bundle C E)) (b : Bundle C E)
      → last_id m (bs ++ b ∷ []) ≡ cod.command_id b.command
  last_id-snoc m [] b = refl
  last_id-snoc m (c ∷ bs) b = last_id-snoc (cod.command_id c.command) bs b

  pop_bundle-mark :
      (offset : ℕ) (out bs : List (Bundle C E)) (r : Reader C E)
      → Ascending offset (out ++ bs)
      → mark r ≡ last_id offset out
      → mark (pop_bundle cod bs r).1 ≡ last_id offset (out ++ (pop_bundle cod bs r).0)
  pop_bundle-mark offset out [] r up same = same ∙ ap (last_id offset) (sym (append-nil out))
  pop_bundle-mark offset out (b ∷ bs) r up same =
      let (_, above) = Ascending-last offset out (b ∷ bs) up in
      let later : max r.applied_index (cod.command_id b.command) ≡ cod.command_id b.command =
        omega (arith, above.0, same) in
      later ∙ sym (last_id-snoc offset out b)

  pop_bundle-cached :
      (bs : List (Bundle C E)) (r : Reader C E)
      → r.cached_bundles ≡ bs
      → (pop_bundle cod bs r).0 ++ (pop_bundle cod bs r).1.cached_bundles ≡ bs
  pop_bundle-cached [] r same = same
  pop_bundle-cached (b ∷ bs) r same = refl

  pop_bundle-applied :
      (bs : List (Bundle C E)) (r : Reader C E)
      → (pop_bundle cod bs r).1.applied_index ≡ r.applied_index
  pop_bundle-applied [] r = refl
  pop_bundle-applied (b ∷ bs) r = refl

  -- The mark of what a step leaves is the last bundle that was handed over.
  abbrev pub IsMarked : ℕ → List (Bundle C E) → List (Bundle C E) × Reader C E → Type 0
  IsMarked offset out q = (mark q.1 ≡ last_id offset (out ++ q.0)) × (offset ≤ q.1.applied_index)

  silent-IsMarked :
      (offset : ℕ) (out : List (Bundle C E)) (r r1 : Reader C E)
      → SameMarks r r1
      → IsMarked offset out ([], r)
      → IsMarked offset out ([], r1)
  silent-IsMarked offset out r r1 (p, q) (same, low) =
      let still : mark r1 ≡ mark r = omega arith in (still ∙ same, omega arith)

  pub act-mark :
      (a : Action) (offset : ℕ) (out o : List (Bundle C E)) (r r' : Reader C E)
      → act cod a r ≡ done (o, r')
      → Ascending offset (out ++ (o ++ r'.cached_bundles))
      → IsMarked offset out ([], r)
      → IsMarked offset out (o, r')
  unfolding act load_next
  act-mark (load_entries s) offset out o r r' h up same = elim (Bool-cases r.async_load) [
    | inl on ↦
        let (r1, run, e) = >>=-eq-done (load_task cod s r) _ (sym (load-act cod s r on) ∙ h) in
        subst (IsMarked offset out) (done-injective e)
          (silent-IsMarked offset out r r1 (load_task-SameMarks s r r1 run) same)
    | inr off ↦
        subst (IsMarked offset out) (done-injective (rw off at h))
          (silent-IsMarked offset out r r (refl, refl) same)
  ]
  act-mark take_task offset out o r r' h up same =
      subst (IsMarked offset out) (done-injective h)
        (silent-IsMarked offset out r r (refl, refl) same)
  act-mark (end_task k) offset out o r r' h up same =
      let (ts, _, e) = >>=-eq-done (finish cod k r.task_queue) _ h in
      subst (IsMarked offset out) (done-injective e)
        (silent-IsMarked offset out r r (refl, refl) same)
  act-mark (read_next s) offset out o r r' h up same =
      let r1 = record r { applied_index = mark r } in
      let (r2, filled, e) = >>=-eq-done (fill_cache cod s r1) _ h in
      let (applied, applying) = fill_cache-SameMarks s r.cached_bundles r1 r2 refl filled in
      let popped = pop_bundle cod r2.cached_bundles r2 in
      let up' =
        subst (λ q. Ascending offset (out ++ (q.0 ++ q.1.cached_bundles))) (sym (done-injective e))
          up in
      let up2 =
        subst (λ bs. Ascending offset (out ++ bs)) (pop_bundle-cached r2.cached_bundles r2 refl)
          up' in
      let still : mark r2 ≡ mark r = omega arith in
      subst (IsMarked offset out) (done-injective e) (
        pop_bundle-mark offset out r2.cached_bundles r2 up2
            (still ∙ same.0 ∙ ap (last_id offset) (append-nil out)),
        subst (λ n. offset ≤ n) (sym (pop_bundle-applied r2.cached_bundles r2))
            (omega (arith, same.1)),
      )
