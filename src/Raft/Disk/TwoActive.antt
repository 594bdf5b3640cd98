-- ===== src/Raft/Disk/TwoActive.antt =====
-- A directory with two files of active segments, and how `truncatePrefix` leaves one.
use my_super_ledger.Prelude.{
  ℕ, ◌+◌, ◌-◌, ◌<◌, ◌^◌, ◌≡◌, refl, false, none, some, List, [], ◌∷◌, ◌++◌, map, Outcome-cases,
  done, abort, ◌>>=◌, arith, inl, inr, ◌∙◌, ap,
}
use mathlib.Core.List.{append_assoc}
use my_super_ledger.Raft.Log.Defs.{LogEntry}
use my_super_ledger.Raft.Disk.Segment.{Env, create}
use my_super_ledger.Raft.Disk.Files.{FileName, in_progress, closed, SegmentFile, file_of}
use my_super_ledger.Raft.Disk.SegmentLog.{
  MetaStorage, SegmentLog, new_active, without_in_progress, has_name, erase_below, truncate_prefix,
}
use my_super_ledger.Raft.Disk.Represents.{IsOrdered}
use my_super_ledger.Raft.Disk.DropsMemory.{drop_all_run}
use my_super_ledger.Raft.Disk.Recovery.{directory, Listed, is_none, add_file, list_segments, init}

-- The file of an active segment is not forgotten.
add_file_keeps :
    (name : FileName) (file : SegmentFile) (acc acc' : Listed)
    → is_none acc.in_progress_file ≡ false
    → add_file name file acc ≡ done acc'
    → is_none acc'.in_progress_file ≡ false
unfolding add_file
add_file_keeps (closed a b) file acc acc' some_file h = ground arith
add_file_keeps (in_progress a) file acc acc' some_file h = ground arith

-- After one active file no other may follow.
second_active :
    (files rest : List SegmentFile) (x : SegmentFile) (a : ℕ) (acc : Listed)
    → x.name ≡ in_progress a
    → is_none acc.in_progress_file ≡ false
    → list_segments (files ++ x ∷ rest) acc ≡ abort
unfolding list_segments
second_active [] rest x a acc named some_file = unfold add_file in ground (arith, named)
second_active (y ∷ ys) rest x a acc named some_file = elim (Outcome-cases (add_file y.name y acc)) [
  | inl stopped ↦ rw stopped
  | inr (acc', added) ↦
      let kept = add_file_keeps y.name y acc acc' some_file added in
      ap (λ o. o >>= list_segments (ys ++ x ∷ rest)) added
      ∙ second_active ys rest x a acc' named kept
]

-- A directory with two of them is refused.
two_active :
    (files more rest : List SegmentFile) (x y : SegmentFile) (a b : ℕ) (acc : Listed)
    → x.name ≡ in_progress a
    → y.name ≡ in_progress b
    → list_segments (files ++ x ∷ (more ++ y ∷ rest)) acc ≡ abort
unfolding list_segments
two_active [] more rest x y a b acc xa yb = elim (Outcome-cases (add_file x.name x acc)) [
  | inl stopped ↦ rw stopped
  | inr (acc', added) ↦
      let kept : is_none acc'.in_progress_file ≡ false = unfold add_file in ground (arith, xa) in
      ap (λ o. o >>= list_segments (more ++ y ∷ rest)) added
      ∙ second_active more rest y b acc' yb kept
]
two_active (z ∷ zs) more rest x y a b acc xa yb = elim (Outcome-cases (add_file z.name z acc)) [
  | inl stopped ↦ rw stopped
  | inr (acc', added) ↦
      ap (λ o. o >>= list_segments (zs ++ x ∷ (more ++ y ∷ rest))) added
      ∙ two_active zs more rest x y a b acc' xa yb
]

without_in_progress-snoc :
    (n : ℕ) (files : List SegmentFile) (x : SegmentFile)
    → has_name n x ≡ false
    → without_in_progress n (files ++ x ∷ []) ≡ without_in_progress n files ++ x ∷ []
unfolding without_in_progress
without_in_progress-snoc n [] x h = ground (arith, h)
without_in_progress-snoc n (y ∷ ys) x h = ground (arith, without_in_progress-snoc n ys x h)

-- `truncatePrefix` to an index past the one after the last, below 2^64 - 1, succeeds on a log on
-- disk in order, and the next start from the directory it leaves aborts, whatever the meta files
-- hold.
pub init-drop_all :
    (E : Env) (f : ℕ → LogEntry) (d : SegmentLog) (o : IsOrdered E f d) (kept : ℕ)
    (meta : MetaStorage)
    → d.last_index + 1 < kept
    → kept + 1 < 2 ^ 64
    → (d' : SegmentLog) × (truncate_prefix E kept d ≡ done d')
      × (init E meta (directory d') ≡ abort)
init-drop_all E f d o kept meta past fits =
    let old = d.left ++ map file_of (erase_below kept d.closed_segments).0 in
    let fresh = create E kept in
    let d' = new_active E kept (record d {
      meta_storage = record d.meta_storage { first_index_file = some kept };
      first_index = kept;
      last_index = kept - 1;
      closed_segments = [];
      left = old ++ file_of o.active ∷ [];
    }) in
    let named : (file_of o.active).name ≡ in_progress o.active.first_index =
      unfold file_of in ground (arith, o.is_on) in
    let other : has_name kept (file_of o.active) ≡ false =
      rw named (ground (arith, o.holds.size, o.last)) in
    let left = without_in_progress-snoc kept old (file_of o.active) other in
    let files : directory d'
        ≡ without_in_progress kept old ++ file_of o.active ∷ ([] ++ file_of fresh ∷ []) =
      unfold directory in
      (ap (λ xs. xs ++ file_of fresh ∷ []) left
        ∙ append_assoc (without_in_progress kept old) (file_of o.active ∷ [])
            (file_of fresh ∷ [])) in
    let refused =
      two_active (without_in_progress kept old) [] [] (file_of o.active) (file_of fresh)
        o.active.first_index kept (record { closed_files = []; in_progress_file = none }) named
        (unfold file_of create in refl) in
    (d', drop_all_run E f d o kept past fits, unfold init in rw (files, refused))
