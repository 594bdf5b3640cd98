-- ===== src/Raft/Log/Batch.antt =====
-- Reading a batch of entries for a follower.
use mathlib.Core.Path.{subst}
use my_super_ledger.Prelude.{
  ℕ, zero, suc, ◌+◌, ◌-◌, ◌≤◌, ◌<◌, ◌^◌, min, false, ◌≡◌, ◌≢◌, refl, sym, ◌∙◌, some, List, [], ◌∷◌,
  get_elem?, length, Outcome, done, abort, ==_iff, expect, ltb, arith, Bool-cases, inl, inr, add64,
  sub64, ltb→lt, ltb-false→le,
}
use my_super_ledger.Raft.Log.Defs.{
  LogEntry, Log, total_size, slot, take_or_stop, batch_loop, get_entries,
}
use my_super_ledger.Raft.Log.View.{IsWellFormed, view, view_inside, slot-eq-view}

-- `es` are the entries of the log from `start` on, within the limits.
pub record IsBatch (byte_size : LogEntry → ℕ) (l : Log) (start room budget : ℕ) (es : List LogEntry)
    : Type 0 where
  pub contiguous : (k : ℕ) → k < length es → view l (start + k) ≡ get_elem? es k
  pub count : length es ≤ room
  pub bytes : total_size byte_size es ≤ budget

not_stopped :
    (e : LogEntry) (es : List LogEntry) (rest : Outcome (List LogEntry))
    → take_or_stop false e rest ≡ done es
    → es ≢ []
not_stopped e es (done rest) h = ground arith
not_stopped e es abort h = cc

module _ (byte_size : LogEntry → ℕ) (small : (e : LogEntry) → byte_size e < 2 ^ 63) (l : Log)
    (w : IsWellFormed l) (max_len : ℕ) (small_len : max_len < 2 ^ 63) where
  IsBatch-cons :
      (start room budget : ℕ) (e : LogEntry) (es : List LogEntry)
      → view l start ≡ some e
      → byte_size e ≤ budget
      → IsBatch byte_size l (start + 1) room (budget - byte_size e) es
      → IsBatch byte_size l start (suc room) budget (e ∷ es)
  IsBatch-cons start room budget e es found fits b = record {
    contiguous = at;
    count = omega (arith, b.count);
    bytes = omega (arith, b.bytes);
  }
    where
      at : (k : ℕ) → k < length (e ∷ es) → view l (start + k) ≡ get_elem? (e ∷ es) k
      at zero h = subst (λ j. view l j ≡ some e) (omega arith) found
      at (suc k) h =
          let next : start + 1 + k ≡ start + suc k = omega arith in
          subst (λ j. view l j ≡ get_elem? es k) next (b.contiguous k (omega arith))

  IsBatch-moved :
      (i j room m n : ℕ) (es : List LogEntry)
      → i ≡ j
      → m ≡ n
      → IsBatch byte_size l i room m es
      → IsBatch byte_size l j room n es
  IsBatch-moved i j room m n es p q b = rw (← p, ← q) b

  step :
      (room start len : ℕ) (e : LogEntry)
      → slot start l ≡ some e
      → batch_loop byte_size max_len l (suc room) start len
        ≡ take_or_stop
            (ltb max_len (add64 len (byte_size e)))
            e
            (batch_loop byte_size max_len l room (add64 start 1) (add64 len (byte_size e)))
  unfolding batch_loop
  step room start len e at = rw (at, expect)

  batch_loop_lem :
      (room start len : ℕ)
      → l.first_index ≤ start
      → start + room ≤ l.last_index + 1
      → len ≤ max_len
      → (es : List LogEntry) × (batch_loop byte_size max_len l room start len ≡ done es)
        × IsBatch byte_size l start room (max_len - len) es
  batch_loop_lem zero start len lo hi fits = (
    [],
    unfold batch_loop in refl,
    record { contiguous = λ k h. absurd (omega arith); count = omega arith; bytes = omega arith },
  )
  batch_loop_lem (suc room) start len lo hi fits =
      let (e, found) = view_inside l w start lo (omega arith) in
      let at : slot start l ≡ some e = slot-eq-view l w start lo (omega arith) ∙ found in
      let next : add64 start 1 ≡ start + 1 = omega (arith, w.bound) in
      let read = step room start len e at in
      elim (Bool-cases (ltb max_len (add64 len (byte_size e)))) [
        | inl full ↦ (
          [],
          read ∙ rw full,
          record {
            contiguous = λ k h. absurd (omega arith);
            count = omega arith;
            bytes = omega arith;
          },
        )
        | inr room_left ↦
            let s = small e in
            let sum : add64 len (byte_size e) ≡ len + byte_size e = omega arith in
            let within = ltb-false→le max_len (add64 len (byte_size e)) room_left in
            let (es, rest, b) =
              batch_loop_lem room (add64 start 1) (add64 len (byte_size e)) (omega arith)
                (omega arith) within in
            (
              e ∷ es,
              read ∙ rw (room_left, rest),
              IsBatch-cons start room (max_len - len) e es found (omega arith) (
                  IsBatch-moved (add64 start 1) (start + 1) room (max_len - add64 len (byte_size e))
                    (max_len - len - byte_size e) es next (omega arith) b),
            )
      ]

  -- With a log in order and sizes below 2^63, a batch from an index of the log, or from the one
  -- after it, is read without a failed assertion or a read outside the vector: it is a piece of
  -- the log that starts there, of at most `max_batch` entries and `max_len` bytes.
  pub get_entries_lem :
      (start max_batch : ℕ)
      → l.first_index ≤ start
      → start ≤ l.last_index + 1
      → (es : List LogEntry) × (get_entries byte_size start max_len max_batch l ≡ done es)
        × IsBatch byte_size l start max_batch max_len es
  unfolding get_entries
  get_entries_lem start max_batch lo hi = elim (Bool-cases (ltb l.last_index start)) [
    | inl heartbeat ↦
        let past = ltb→lt l.last_index start heartbeat in
        (
          [],
          rw (heartbeat, (==_iff start (add64 l.last_index 1)).1 (omega (arith, w.bound))),
          record {
            contiguous = λ k h. absurd (omega arith);
            count = omega arith;
            bytes = omega arith;
          },
        )
    | inr inside ↦
        let within = ltb-false→le l.last_index start inside in
        let room = min max_batch (add64 (sub64 l.last_index start) 1) in
        let (es, read, b) = batch_loop_lem room start 0 lo (omega (arith, w.bound)) (omega arith) in
        (
          es,
          rw inside read,
          record {
            contiguous = b.contiguous;
            count = omega (arith, b.count);
            bytes = omega (arith, b.bytes);
          },
        )
  ]

  -- A batch from an index of the log is not empty if it may hold an entry and the first one fits.
  pub get_entries_progress :
      (start max_batch : ℕ) (e : LogEntry) (es : List LogEntry)
      → l.first_index ≤ start
      → start ≤ l.last_index
      → 0 < max_batch
      → view l start ≡ some e
      → byte_size e ≤ max_len
      → get_entries byte_size start max_len max_batch l ≡ done es
      → es ≢ []
  unfolding get_entries
  get_entries_progress start max_batch e es lo hi some_room found fits read =
      let room = min max_batch (add64 (sub64 l.last_index start) 1) in
      let r = room - 1 in
      let one : room ≡ suc r = omega (arith, w.bound) in
      let inside : ltb l.last_index start ≡ false = ground arith in
      let looped : batch_loop byte_size max_len l (suc r) start 0 ≡ done es =
        subst (λ n. batch_loop byte_size max_len l n start 0 ≡ done es) one (rw inside at read) in
      let at : slot start l ≡ some e = slot-eq-view l w start lo hi ∙ found in
      let more : ltb max_len (add64 0 (byte_size e)) ≡ false = ground (arith, small e) in
      not_stopped e es (batch_loop byte_size max_len l r (add64 start 1) (add64 0 (byte_size e))) (
        subst
          (λ b.
            take_or_stop b e
              (batch_loop byte_size max_len l r (add64 start 1) (add64 0 (byte_size e)))
            ≡ done es)
          more (sym (step r start 0 e at) ∙ looped))
