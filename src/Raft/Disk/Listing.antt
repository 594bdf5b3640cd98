-- ===== src/Raft/Disk/Listing.antt =====
-- The files of a log, in order, and how they are listed.
use my_super_ledger.Prelude.{
  ℕ, ◌+◌, ◌≤◌, ◌≡◌, refl, false, Option, none, some, List, [], ◌∷◌, ◌++◌, done, ltb, ◌==◌, arith,
  ◌∙◌, ap, sym,
}
use mathlib.Core.Path.{subst}
use mathlib.Core.List.{append-nil, append_assoc}
use my_super_ledger.Raft.Disk.Segment.{Segment}
use my_super_ledger.Raft.Disk.Files.{in_progress, closed, SegmentFile, file_of}
use my_super_ledger.Raft.Disk.Recovery.{ClosedFile, has_first, insert_file, add_file, list_segments}

-- The files are of closed segments from `n` on, one behind the other, up to `m`, which is out.
abbrev pub Retained : ℕ → List ClosedFile → ℕ → Type 0
Retained n [] m = n ≡ m
Retained n (c ∷ cs) m =
    (c.first_index ≡ n)
    × (c.first_index ≤ c.last_index)
    × (c.file.name ≡ closed c.first_index c.last_index)
    × Retained (c.last_index + 1) cs m

abbrev pub files_of : List ClosedFile → List SegmentFile
files_of [] = []
files_of (c ∷ cs) = c.file ∷ files_of cs

abbrev pub closed_file : Segment → ClosedFile
closed_file s = record { first_index = s.first_index; last_index = s.last_index; file = file_of s }

pub Retained-le : (n : ℕ) (cs : List ClosedFile) (m : ℕ) → Retained n cs m → n ≤ m
Retained-le n [] m c = omega arith
Retained-le n (x ∷ xs) m c = omega (arith, Retained-le (x.last_index + 1) xs m c.3)

-- A file whose first index is past the listed ones is new and goes to their end.
listed_below :
    (n : ℕ) (cs : List ClosedFile) (m : ℕ) (c : ClosedFile)
    → Retained n cs m
    → m ≤ c.first_index
    → (has_first c.first_index cs ≡ false) × (insert_file c cs ≡ cs ++ c ∷ [])
unfolding has_first insert_file
listed_below n [] m c r le = (refl, refl)
listed_below n (x ∷ xs) m c r le =
    let after = Retained-le (x.last_index + 1) xs m r.3 in
    let (new, place) = listed_below (x.last_index + 1) xs m c r.3 le in
    let other : (x.first_index == c.first_index) ≡ false = ground arith in
    let later : ltb c.first_index x.first_index ≡ false = ground arith in
    (rw (other, new), rw (later, place))

Retained-append :
    (n : ℕ) (cs : List ClosedFile) (m : ℕ) (ds : List ClosedFile) (k : ℕ)
    → Retained n cs m
    → Retained m ds k
    → Retained n (cs ++ ds) k
Retained-append n [] m ds k r q = subst (λ x. Retained x ds k) (sym r) q
Retained-append n (x ∷ xs) m ds k r q =
    (r.0, r.1, r.2, Retained-append (x.last_index + 1) xs m ds k r.3 q)

list_closed :
    (file : SegmentFile) (a b : ℕ) (cs : List ClosedFile) (files : List SegmentFile)
    (p : Option (ℕ × SegmentFile))
    → file.name ≡ closed a b
    → has_first a cs ≡ false
    → list_segments (file ∷ files) (record { closed_files = cs; in_progress_file = p })
      ≡ list_segments files (record {
        closed_files = insert_file (record { first_index = a; last_index = b; file = file }) cs;
        in_progress_file = p;
      })
unfolding list_segments add_file
list_closed file a b cs files p name new = ground (arith, name)

pub list_active :
    (file : SegmentFile) (a : ℕ) (cs : List ClosedFile)
    → file.name ≡ in_progress a
    → list_segments (file ∷ []) (record { closed_files = cs; in_progress_file = none })
      ≡ done (record { closed_files = cs; in_progress_file = some (a, file) })
unfolding list_segments add_file
list_active file a cs name = ground (arith, name)

-- Files of closed segments in order are listed as they are.
pub list_segments_lem :
    (n : ℕ) (cs : List ClosedFile) (m : ℕ) (ds : List ClosedFile) (k : ℕ) (files : List SegmentFile)
    (p : Option (ℕ × SegmentFile))
    → Retained n cs m
    → Retained m ds k
    → list_segments (files_of ds ++ files) (record { closed_files = cs; in_progress_file = p })
      ≡ list_segments files (record { closed_files = cs ++ ds; in_progress_file = p })
list_segments_lem n cs m [] k files p r q =
    ap (λ xs. list_segments files (record { closed_files = xs; in_progress_file = p }))
      (sym (append-nil cs))
list_segments_lem n cs m (d ∷ ds) k files p r q =
    let (new, place) = listed_below n cs m d r (omega (arith, q.0)) in
    let one : Retained n (cs ++ d ∷ []) (d.last_index + 1) =
      Retained-append n cs m (d ∷ []) (d.last_index + 1) r (q.0, q.1, q.2, refl) in
    let rest = list_segments_lem n (cs ++ d ∷ []) (d.last_index + 1) ds k files p one q.3 in
    let listed = λ (xs : List ClosedFile).
      list_segments (files_of ds ++ files) (record { closed_files = xs; in_progress_file = p }) in
    list_closed d.file d.first_index d.last_index cs (files_of ds ++ files) p q.2 new
    ∙ ap listed place
    ∙ rest
    ∙ ap (λ xs. list_segments files (record { closed_files = xs; in_progress_file = p }))
        (append_assoc cs (d ∷ []) ds)
