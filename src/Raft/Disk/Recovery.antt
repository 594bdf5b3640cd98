-- ===== src/Raft/Disk/Recovery.antt =====
-- The start of SegmentLog from what is on disk: `init`, `listSegments` and `recoverSegments`. The
-- directory is the list of its pairs of files, in the order in which it lists them.
use my_super_ledger.Prelude.{
  ℕ, Bool, true, false, not, Option, none, some, List, [], ◌∷◌, ◌++◌, Outcome, done, ◌>>=◌, ◌>>◌,
  assert, map, ltb, leb, ◌==◌, ◌&&◌, ◌||◌, add64, sub64, if◌then◌else◌,
}
use my_super_ledger.Raft.Disk.Segment.{Env, Segment}
use my_super_ledger.Raft.Disk.Files.{FileName, in_progress, closed, SegmentFile, file_of, recover}
use my_super_ledger.Raft.Disk.SegmentLog.{MetaStorage, SegmentLog, new_active}

abbrev pub active_file : Option Segment → List SegmentFile
active_file none = []
active_file (some s) = file_of s ∷ []

-- What a log leaves in the directory.
unfoldable pub directory : SegmentLog → List SegmentFile
directory d = d.left ++ (map file_of d.closed_segments ++ active_file d.active_segment)

-- A closed segment before it is recovered: its range, by the name of its file.
pub record ClosedFile : Type 0 where
  pub first_index : ℕ
  pub last_index : ℕ
  pub file : SegmentFile

pub record Listed : Type 0 where
  pub closed_files : List ClosedFile
  pub in_progress_file : Option (ℕ × SegmentFile)

abbrev pub is_none {ℓ} : {A : Type ℓ} → Option A → Bool
is_none none = true
is_none (some a) = false

unfoldable pub has_first : ℕ → List ClosedFile → Bool
has_first n [] = false
has_first n (c ∷ cs) = c.first_index == n || has_first n cs

unfoldable pub insert_file : ClosedFile → List ClosedFile → List ClosedFile
insert_file c [] = c ∷ []
insert_file c (x ∷ xs) =
    if ltb c.first_index x.first_index then c ∷ x ∷ xs else x ∷ insert_file c xs

-- The body of the loop of `listSegments`, by the name of the file.
unfoldable pub add_file : FileName → SegmentFile → Listed → Outcome Listed
add_file (closed a b) file acc = do
  assert (not (has_first a acc.closed_files))
  done (record acc {
    closed_files =
        insert_file (record { first_index = a; last_index = b; file = file }) acc.closed_files;
  })
add_file (in_progress a) file acc = do
  assert (is_none acc.in_progress_file)
  done (record acc { in_progress_file = some (a, file) })

unfoldable pub list_segments : List SegmentFile → Listed → Outcome Listed
list_segments [] acc = done acc
list_segments (file ∷ files) acc = add_file file.name file acc >>= list_segments files

-- The closed segments that are recovered, the files that are ignored, the last index of the segment
-- before (`prevSegPtr`) and that of the log.
pub record Recovered : Type 0 where
  pub segments : List Segment
  pub ignored : List SegmentFile
  pub previous : Option ℕ
  pub last_index : ℕ

-- The segment comes right after the one before, if there is one.
abbrev pub follows : Option ℕ → ℕ → Bool
follows none first = true
follows (some last) first = first == add64 last 1

-- The loop of `recoverSegments` over the closed segments.
unfoldable pub recover_closed : ℕ → Option ℕ → ℕ → List ClosedFile → Outcome Recovered
recover_closed first prev last [] =
    done (record { segments = []; ignored = []; previous = prev; last_index = last })
recover_closed first prev last (c ∷ cs) = assert (leb c.first_index c.last_index) >>= λ _.
    assert (follows prev c.first_index) >>= λ _.
    assert (not (is_none prev) || leb c.first_index first) >>= λ _.
    elim (is_none prev && ltb c.last_index first) [
      | true ↦ recover_closed first prev last cs >>= λ r.
          done (record r { ignored = c.file ∷ r.ignored })
      | false ↦ recover c.file false c.first_index c.last_index >>= λ s.
          recover_closed first (some s.last_index) s.last_index cs >>= λ r.
          done (record r { segments = s ∷ r.segments })
    ]

-- The end of `recoverSegments`: the active segment, if it is not ignored, and the last index.
pub record Tail : Type 0 where
  pub active : Option Segment
  pub ignored : List SegmentFile
  pub last_index : ℕ

unfoldable pub recover_active : ℕ → Option ℕ → ℕ → Option (ℕ × SegmentFile) → Outcome Tail
recover_active first prev last none =
    done (record { active = none; ignored = []; last_index = last })
recover_active first prev last (some (a, file)) =
    assert (not (is_none prev) || leb a first) >>= λ _. assert (follows prev a) >>= λ _.
    recover file true a (sub64 a 1) >>= λ s.
    if ltb s.last_index first
    then done (record { active = none; ignored = file ∷ []; last_index = last })
    else done (record { active = some s; ignored = []; last_index = s.last_index })

-- A file that is missing is written with the value.
abbrev pub or_default : ℕ → Option ℕ → ℕ
or_default n none = n
or_default n (some v) = v

-- The end of `init`: an empty log ends before its first index, and there is an active segment.
abbrev pub with_active : Env → Option Segment → SegmentLog → SegmentLog
with_active E none d = new_active E (add64 d.last_index 1) d
with_active E (some s) d = record d { active_segment = some s }

unfoldable pub init : Env → MetaStorage → List SegmentFile → Outcome SegmentLog
init E meta files = do
  let term = or_default 0 meta.current_term_file
  let vote = or_default 0 meta.vote_for_file
  let first = or_default 1 meta.first_index_file
  listed ← list_segments files (record { closed_files = []; in_progress_file = none })
  r ← recover_closed first none 0 listed.closed_files
  t ← recover_active first r.previous r.last_index listed.in_progress_file
  done (
      with_active E t.active (record {
        meta_storage = record {
          current_term_file = some term;
          vote_for_file = some vote;
          first_index_file = some first;
        };
        first_index = first;
        last_index = if t.last_index == 0 then sub64 first 1 else t.last_index;
        current_term = term;
        vote_for = vote;
        closed_segments = r.segments;
        active_segment = none;
        left = r.ignored ++ t.ignored;
      }))
