-- ===== src/Raft/Disk/SegmentLog.antt =====
-- SegmentLog: the closed segments in the order of their first index, the active one, the range of
-- indices, the term and the vote with the files that keep them. `left` are the files of segments
-- that the log has let go and that stay in the directory. The functions of Segment are named with
-- its module.
use my_super_ledger.Prelude.{
  ℕ, Bool, true, false, not, Option, none, some, List, [], ◌∷◌, ◌++◌, Outcome, done, ◌>>=◌, ◌>>◌,
  assert, expect, length, ltb, leb, ◌==◌, ◌||◌, add64, sub64, if◌then◌else◌, map,
}
use my_super_ledger.Raft.Log.Defs.{LogEntry}
use my_super_ledger.Raft.Disk.Segment
use my_super_ledger.Raft.Disk.Segment.{Env, Segment, is_empty}
use my_super_ledger.Raft.Disk.Files.{in_progress, closed, SegmentFile, file_of}

-- The three files of MetaStorage; none: there is no such file.
pub record MetaStorage : Type 0 where
  pub current_term_file : Option ℕ
  pub vote_for_file : Option ℕ
  pub first_index_file : Option ℕ

pub record SegmentLog : Type 0 where
  pub meta_storage : MetaStorage
  pub first_index : ℕ
  pub last_index : ℕ
  pub current_term : ℕ
  pub vote_for : ℕ
  pub closed_segments : List Segment
  pub active_segment : Option Segment
  pub left : List SegmentFile

unfoldable pub set_current_term : ℕ → SegmentLog → SegmentLog
set_current_term term d = record d {
  meta_storage = record d.meta_storage { current_term_file = some term };
  current_term = term;
}

unfoldable pub set_vote_for : ℕ → SegmentLog → SegmentLog
set_vote_for vote d = record d {
  meta_storage = record d.meta_storage { vote_for_file = some vote };
  vote_for = vote;
}

-- `mClosedSegments[segment.first_index] = segment`
unfoldable pub insert_segment : Segment → List Segment → List Segment
insert_segment s [] = s ∷ []
insert_segment s (t ∷ ts) =
    if ltb s.first_index t.first_index
    then s ∷ t ∷ ts
    else if s.first_index == t.first_index
    then s ∷ ts
    else t ∷ insert_segment s ts

abbrev pub has_name : ℕ → SegmentFile → Bool
has_name first file = elim file.name [ in_progress n ↦ n == first | closed a b ↦ false ]

-- The files, but for one that a new active segment empties.
unfoldable pub without_in_progress : ℕ → List SegmentFile → List SegmentFile
without_in_progress first [] = []
without_in_progress first (file ∷ files) =
    let rest = without_in_progress first files in if has_name first file then rest else file ∷ rest

-- The log with a new active segment that starts at `first`.
abbrev pub new_active : Env → ℕ → SegmentLog → SegmentLog
new_active E first d = record d {
  active_segment = some (Segment.create E first);
  left = without_in_progress first d.left;
}

-- The log with its active segment closed and a new one.
unfoldable pub roll_active_segment : Env → SegmentLog → Outcome SegmentLog
roll_active_segment E d = do
  active ← expect d.active_segment
  s ← Segment.close active
  done (
      new_active E (add64 d.last_index 1)
        (record d { closed_segments = insert_segment s d.closed_segments }))

-- `--mClosedSegments.upper_bound(index)`: the last segment that starts at or before the index
unfoldable pub segment_before : ℕ → Option Segment → List Segment → Option Segment
segment_before i prev [] = prev
segment_before i prev (s ∷ ss) =
    let rest = segment_before i (some s) ss in if ltb i s.first_index then prev else rest

-- The index is in the active segment.
abbrev pub in_active : ℕ → Option Segment → Bool
in_active i none = false
in_active i (some s) = leb s.first_index i

unfoldable pub get_segment : ℕ → SegmentLog → Outcome (Option Segment)
get_segment i d =
    if is_empty d.first_index d.last_index || (ltb i d.first_index || ltb d.last_index i)
    then done none
    else if in_active i d.active_segment
    then done d.active_segment
    else (do
      assert (ltb 0 (length d.closed_segments))
      s ← expect (segment_before i none d.closed_segments)
      done (some s))

-- Nothing where there is no segment.
abbrev pub from_segment {ℓ} : {A : Type ℓ} → A → (Segment → Outcome A) → Option Segment → Outcome A
from_segment a read none = done a
from_segment a read (some s) = read s

-- none: false
unfoldable pub get_entry : Env → ℕ → ℕ → SegmentLog → Outcome (Option LogEntry)
get_entry E hint i d = get_segment i d >>= from_segment none (Segment.get_entry E hint i)

unfoldable pub get_term : ℕ → SegmentLog → Outcome (Option ℕ)
get_term i d =
    if i == sub64 d.first_index 1
    then done (some 0)
    else (get_segment i d >>= from_segment none (Segment.get_term i))

unfoldable pub get_entries : Env → (ℕ → ℕ) → ℕ → ℕ → ℕ → SegmentLog → Outcome (ℕ × List LogEntry)
get_entries E hints start max_len max_batch d =
    if ltb d.last_index start
    then (do assert (start == add64 d.last_index 1); done (0, []))
    else (get_segment start d
        >>= from_segment (0, []) (Segment.get_entries E hints start max_len max_batch))

-- The segment that the entries go to, rolled if they do not fit the active one.
unfoldable pub roll_if_needed : Env → List LogEntry → SegmentLog → Outcome SegmentLog
roll_if_needed E es d = do
  active ← expect d.active_segment
  roll ← Segment.should_roll E es active
  elim roll [ true ↦ roll_active_segment E d | false ↦ done d ]

-- What `appendEntry` and `appendEntries` do after their tests.
unfoldable pub write_entries : Env → List LogEntry → SegmentLog → Outcome SegmentLog
write_entries E es d = do
  d' ← roll_if_needed E es d
  active ← expect d'.active_segment
  s ← Segment.append_entries E es active
  done (record d' { active_segment = some s; last_index = add64 d'.last_index (length es) })

unfoldable pub append_entry : Env → LogEntry → SegmentLog → Outcome (Bool × SegmentLog)
append_entry E e d =
    if not (e.index == add64 d.last_index 1)
    then done (false, d)
    else (write_entries E (e ∷ []) d >>= λ d'. done (true, d'))

unfoldable pub append_entries : Env → List LogEntry → SegmentLog → Outcome (Bool × SegmentLog)
append_entries E [] d = done (true, d)
append_entries E (e ∷ es) d =
    if not (e.index == add64 d.last_index 1)
    then done (false, d)
    else (write_entries E (e ∷ es) d >>= λ d'. done (true, d'))

-- The loop of `truncatePrefix` over the closed segments: those let go, those that stay.
unfoldable pub erase_below : ℕ → List Segment → List Segment × List Segment
erase_below kept [] = ([], [])
erase_below kept (s ∷ ss) =
    let (gone, stay) = erase_below kept ss in
    if ltb s.last_index kept then (s ∷ gone, stay) else ([], s ∷ ss)

-- The end of `truncatePrefix`, when no closed segment stays.
unfoldable pub reset_active : Env → ℕ → SegmentLog → Outcome SegmentLog
reset_active E kept d = expect d.active_segment >>= λ active.
    if ltb active.last_index kept
    then done (
        new_active E (add64 (sub64 d.first_index 1) 1)
          (record d { last_index = sub64 d.first_index 1; left = d.left ++ file_of active ∷ [] }))
    else done d

-- A closed segment that stays ends the call.
abbrev pub when_all_gone {ℓ} : {A : Type ℓ} → List Segment → A → A → A
when_all_gone [] a b = a
when_all_gone (s ∷ ss) a b = b

unfoldable pub truncate_prefix : Env → ℕ → SegmentLog → Outcome SegmentLog
truncate_prefix E kept d =
    if leb kept d.first_index
    then done d
    else (let (gone, stay) = erase_below kept d.closed_segments in
        let d' = record d {
          meta_storage = record d.meta_storage { first_index_file = some kept };
          first_index = kept;
          closed_segments = stay;
          left = d.left ++ map file_of gone;
        } in
        when_all_gone stay (reset_active E kept d') (done d'))

-- The closed segments that start at or before the index; their keys ascend, so the rest is what
-- the loop from the back drops.
unfoldable pub keep_upto : ℕ → List Segment → List Segment
keep_upto kept [] = []
keep_upto kept (s ∷ ss) =
    let rest = keep_upto kept ss in if leb s.first_index kept then s ∷ rest else []

-- `truncateSuffix` of the last closed segment
unfoldable pub truncate_last : ℕ → List Segment → Outcome (List Segment)
truncate_last kept [] = done []
truncate_last kept (s ∷ []) = Segment.truncate_suffix kept s >>= λ s'. done (s' ∷ [])
truncate_last kept (s ∷ t ∷ ts) = truncate_last kept (t ∷ ts) >>= λ ss. done (s ∷ ss)

-- the list without its last item
unfoldable pub but_last : List Segment → List Segment
but_last [] = []
but_last (s ∷ []) = []
but_last (s ∷ t ∷ ts) = s ∷ but_last (t ∷ ts)

-- The last segment is the active one: it is cut, or dropped with all that the log holds.
unfoldable pub cut_active : Env → ℕ → Segment → SegmentLog → Outcome SegmentLog
cut_active E kept active d =
    if leb d.first_index kept
    then (Segment.truncate_suffix kept active >>= λ s. done (record d { active_segment = some s }))
    else done (new_active E (add64 kept 1) d)

-- The active segment is dropped, the last segment is a closed one or there is none.
unfoldable pub cut_closed : Env → ℕ → List Segment → SegmentLog → Outcome SegmentLog
cut_closed E kept [] d =
    done
      (new_active E (add64 kept 1) (record d { first_index = add64 kept 1; closed_segments = [] }))
cut_closed E kept (s ∷ ss) d =
    if leb d.first_index kept
    then (truncate_last kept (s ∷ ss) >>= λ ts.
        done (new_active E (add64 kept 1) (record d { closed_segments = ts })))
    else done (new_active E (add64 kept 1) (record d { closed_segments = but_last (s ∷ ss) }))

-- The files of segments that are dropped are renamed, so that recovery ignores them.
unfoldable pub truncate_suffix : Env → ℕ → SegmentLog → Outcome SegmentLog
truncate_suffix E kept d =
    if leb d.last_index kept
    then done d
    else (expect d.active_segment >>= λ active.
        let d' = record d { last_index = kept } in
        if leb active.first_index kept
        then cut_active E kept active d'
        else cut_closed E kept (keep_upto kept d.closed_segments) d')
