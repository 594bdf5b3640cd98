-- ===== src/Raft/Disk/Restart.antt =====
-- A log that is started again from the files it left.
use my_super_ledger.Prelude.{
  ℕ, ◌+◌, ◌≤◌, ◌≡◌, refl, Bool, true, false, not, Option, none, some, List, [], ◌∷◌, ◌++◌, map,
  Outcome, done, abort, ◌>>=◌, ltb, leb, ◌==◌, ◌&&◌, ◌||◌, arith, ◌∙◌, ap, sym, sub64,
}
use mathlib.Core.Path.{subst}
use mathlib.Core.List.{append-nil}
use my_super_ledger.Raft.Log.Defs.{LogEntry}
use my_super_ledger.Raft.Disk.Segment.{Env, Segment}
use my_super_ledger.Raft.Disk.Holds.{Holds}
use my_super_ledger.Raft.Disk.Files.{in_progress, SegmentFile, file_of, recover, recover-file_of}
use my_super_ledger.Raft.Disk.SegmentLog.{MetaStorage, SegmentLog}
use my_super_ledger.Raft.Disk.Chain.{Chain}
use my_super_ledger.Raft.Disk.Represents.{IsOrdered}
use my_super_ledger.Raft.Disk.Recovery.{
  active_file, directory, ClosedFile, Listed, is_none, list_segments, Recovered, follows,
  recover_closed, recover_active, init,
}
use my_super_ledger.Raft.Disk.Listing.{
  Retained, files_of, closed_file, Retained-le, list_active, list_segments_lem,
}

-- The segment before, and the last index, after the segments are recovered.
abbrev prev_after : Option ℕ → List Segment → Option ℕ
prev_after prev [] = prev
prev_after prev (s ∷ ss) = prev_after (some s.last_index) ss

abbrev last_after : ℕ → List Segment → ℕ
last_after last [] = last
last_after last (s ∷ ss) = last_after s.last_index ss

-- What the loop asserts of a segment that starts at `n`.
abbrev MayFollow : ℕ → Option ℕ → ℕ → Type 0
MayFollow first prev n = (follows prev n ≡ true) × ((not (is_none prev) || leb n first) ≡ true)

ignoring_none : (o : Outcome Recovered) → o ≡ (o >>= λ r. done r)
ignoring_none (done r) = refl
ignoring_none abort = refl

ignoring_one :
    (o : Outcome Recovered) (file : SegmentFile) (files : List SegmentFile)
    → (o
        >>= (λ r. done (record r { ignored = files ++ r.ignored }))
        >>= (λ r. done (record r { ignored = file ∷ r.ignored })))
      ≡ (o >>= λ r. done (record r { ignored = (file ∷ files) ++ r.ignored }))
ignoring_one (done r) file files = refl
ignoring_one abort file files = refl

-- Files of segments that end before the first index are ignored.
recover-Retained :
    (first n : ℕ) (cs : List ClosedFile) (m last : ℕ) (ds : List ClosedFile)
    → Retained n cs m
    → m ≤ first
    → recover_closed first none last (cs ++ ds) ≡ (
        recover_closed first none last ds >>= λ r.
        done (record r { ignored = files_of cs ++ r.ignored }))
unfolding recover_closed
recover-Retained first n [] m last ds r le = ignoring_none (recover_closed first none last ds)
recover-Retained first n (c ∷ cs) m last ds r le =
    let after = Retained-le (c.last_index + 1) cs m r.3 in
    let rest = recover-Retained first (c.last_index + 1) cs m last ds r.3 le in
    let range : leb c.first_index c.last_index ≡ true = ground arith in
    let start : leb c.first_index first ≡ true = ground arith in
    let skip : ltb c.last_index first ≡ true = ground arith in
    rw (range, start, skip, rest)
      (ignoring_one (recover_closed first none last ds) c.file (files_of cs))

module _ (E : Env) (f : ℕ → LogEntry) where
  recover_file :
      (s : Segment) (active : Bool) (x : ℕ)
      → Holds E f s
      → s.is_active ≡ active
      → (active || x == s.last_index) ≡ true
      → recover (file_of s) active s.first_index x ≡ done s
  recover_file s true x h on known =
      let same : recover (file_of s) true s.first_index x
          ≡ recover (file_of s) true s.first_index s.last_index =
        unfold recover in refl in
      same
      ∙ subst (λ b. recover (file_of s) b s.first_index s.last_index ≡ done s) on
          (recover-file_of E f s h)
  recover_file s false x h off known =
      let last : s.last_index ≡ x = ground arith in
      subst (λ y. recover (file_of s) false s.first_index y ≡ done s) last
        (subst (λ b. recover (file_of s) b s.first_index s.last_index ≡ done s) off
          (recover-file_of E f s h))

  -- The segments of a chain are recovered as they were.
  recover-Chain :
      (first n : ℕ) (ss : List Segment) (m : ℕ) (prev : Option ℕ) (last : ℕ)
      → Chain E f first n ss m
      → MayFollow first prev n
      → (recover_closed first prev last (map closed_file ss)
          ≡ done (record {
            segments = ss;
            ignored = [];
            previous = prev_after prev ss;
            last_index = last_after last ss;
          }))
        × MayFollow first (prev_after prev ss) m
  unfolding recover_closed
  recover-Chain first n [] m prev last c may = (refl, subst (λ k. MayFollow first prev k) c may)
  recover-Chain first n (s ∷ ss) m prev last c may =
      let may' = subst (λ k. MayFollow first prev k) (sym c.0) may in
      let next : MayFollow first (some s.last_index) (s.last_index + 1) =
        (ground (arith, c.4.bound), refl) in
      let (rest, end) =
        recover-Chain first (s.last_index + 1) ss m (some s.last_index) s.last_index c.5 next in
      let file = recover_file s false s.last_index c.4 c.3 (ground arith) in
      let range : leb s.first_index s.last_index ≡ true = ground (arith, c.1) in
      let stays : (is_none prev && ltb s.last_index first) ≡ false = ground (arith, c.2) in
      (simp (range, may'.0, may'.1, stays, file, rest, ◌>>=◌), end)

  Chain-Retained :
      (lo n : ℕ) (ss : List Segment) (m : ℕ)
      → Chain E f lo n ss m
      → Retained n (map closed_file ss) m
  unfolding file_of
  Chain-Retained lo n [] m c = c
  Chain-Retained lo n (s ∷ ss) m c =
      (c.0, c.1, ground arith, Chain-Retained lo (s.last_index + 1) ss m c.5)

files_of-map : (ss : List Segment) → files_of (map closed_file ss) ≡ map file_of ss
files_of-map [] = refl
files_of-map (s ∷ ss) = ap (λ fs. file_of s ∷ fs) (files_of-map ss)

-- What the log has on disk beside its segments: its term, its vote and its first index, and only
-- files of closed segments that end before it.
pub record IsPersisted (d : SegmentLog) (start : ℕ) : Type 0 where
  pub fields : d.meta_storage ≡ record {
    current_term_file = some d.current_term;
    vote_for_file = some d.vote_for;
    first_index_file = some d.first_index;
  }
  pub from : ℕ
  pub retained : List ClosedFile
  pub kept : d.left ≡ files_of retained
  pub in_order : Retained from retained start

module _ (E : Env) (f : ℕ → LogEntry) (d : SegmentLog) (o : IsOrdered E f d)
    (p : IsPersisted d o.start) where
  -- The directory lists the files that are retained, then the closed segments, then the active one.
  directory_listed :
      list_segments (directory d) (record { closed_files = []; in_progress_file = none })
      ≡ done (record {
        closed_files = p.retained ++ map closed_file d.closed_segments;
        in_progress_file = some (o.active.first_index, file_of o.active);
      })
  unfolding directory
  directory_listed =
      let rest = active_file d.active_segment in
      let first =
        list_segments_lem p.from [] p.from p.retained o.start
          (map file_of d.closed_segments ++ rest) none refl p.in_order in
      let second =
        list_segments_lem p.from p.retained o.start (map closed_file d.closed_segments)
          o.active.first_index rest none p.in_order
          (Chain-Retained E f d.first_index o.start d.closed_segments o.active.first_index
            o.chain) in
      let listed : Listed = record {
        closed_files = p.retained ++ map closed_file d.closed_segments;
        in_progress_file = none;
      } in
      let named : (file_of o.active).name ≡ in_progress o.active.first_index =
        unfold file_of in ground (arith, o.is_on) in
      ap
        (λ fs.
          list_segments (fs ++ (map file_of d.closed_segments ++ rest))
            (record { closed_files = []; in_progress_file = none }))
        p.kept
      ∙ first
      ∙ ap
          (λ fs.
            list_segments (fs ++ rest)
              (record { closed_files = p.retained; in_progress_file = none }))
          (sym (files_of-map d.closed_segments))
      ∙ second
      ∙ ap (λ a. list_segments (active_file a) listed) o.has_active
      ∙ list_active (file_of o.active) o.active.first_index listed.closed_files named

  -- the last segment before the active one
  previous : Option ℕ
  previous = prev_after none d.closed_segments

  closed_recovered :
      (recover_closed d.first_index none 0 (p.retained ++ map closed_file d.closed_segments)
        ≡ done (record {
          segments = d.closed_segments;
          ignored = files_of p.retained ++ [];
          previous = previous;
          last_index = last_after 0 d.closed_segments;
        }))
      × MayFollow d.first_index previous o.active.first_index
  unfolding previous
  closed_recovered =
      let (run, may) =
        recover-Chain E f d.first_index o.start d.closed_segments o.active.first_index none 0
          o.chain (refl, ground (arith, o.start_low)) in
      (
        recover-Retained d.first_index p.from p.retained o.start 0
              (map closed_file d.closed_segments) p.in_order o.start_low
            ∙ rw run refl,
        may,
      )

  active_recovered :
      (last : ℕ)
      → d.first_index ≤ d.last_index
      → recover_active d.first_index previous last (some (o.active.first_index, file_of o.active))
        ≡ done (record { active = some o.active; ignored = []; last_index = o.active.last_index })
  unfolding recover_active
  active_recovered last some_entry =
      let may = closed_recovered.1 in
      let file =
        recover_file E f o.active true (sub64 o.active.first_index 1) o.holds o.is_on refl in
      let stays : ltb o.active.last_index d.first_index ≡ false = ground (arith, o.last) in
      simp (may.0, may.1, file, stays, ◌>>=◌)

  -- A log on disk that is in order, holds an entry, and whose term, vote and first index are in
  -- their files, is started again from its own directory as it was, when the files that it has let
  -- go are closed segments in order before its own.
  pub init-directory : d.first_index ≤ d.last_index → init E d.meta_storage (directory d) ≡ done d
  init-directory some_entry =
      subst (λ m. init E m (directory d) ≡ done d) (sym p.fields) (started ∙ ap done same)
    where
      meta : MetaStorage
      meta = record {
        current_term_file = some d.current_term;
        vote_for_file = some d.vote_for;
        first_index_file = some d.first_index;
      }

      again : SegmentLog
      again = record {
        meta_storage = meta;
        first_index = d.first_index;
        last_index = o.active.last_index;
        current_term = d.current_term;
        vote_for = d.vote_for;
        closed_segments = d.closed_segments;
        active_segment = some o.active;
        left = (files_of p.retained ++ []) ++ [];
      }

      started : init E meta (directory d) ≡ done again
      started =
          let some_last : (o.active.last_index == 0) ≡ false = ground (arith, o.last, o.first) in
          let active = active_recovered (last_after 0 d.closed_segments) some_entry in
          unfold init in simp (directory_listed, closed_recovered.0, active, some_last, ◌>>=◌)

      same : again ≡ d
      same =
          let left : (files_of p.retained ++ []) ++ [] ≡ d.left =
            append-nil (files_of p.retained ++ [])
            ∙ append-nil (files_of p.retained)
            ∙ sym p.kept in
          λ i. record d {
            meta_storage = sym p.fields i;
            last_index = o.last i;
            active_segment = sym o.has_active i;
            left = left i;
          }
