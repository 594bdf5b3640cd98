-- ===== src/Raft/Disk/Segment.antt =====
-- Segment: one pair of files of the log, mapped into memory, a table of LogMeta and the entries'
-- bytes. The serialised form of an entry, which protobuf generates, and the keys are given by an
-- Env. An access outside a mapped file is `abort`.
use my_super_ledger.Prelude.{
  ℕ, zero, suc, ◌+◌, ◌*◌, ◌/◌, ◌%◌, ◌^◌, Bool, true, false, not, Option, none, some, List, [], ◌∷◌,
  ◌++◌, Outcome, done, ◌>>=◌, ◌>>◌, assert, expect, get_elem?, length, ltb, leb, ◌==◌, ◌&&◌, ◌||◌,
  min, add64, sub64, if◌then◌else◌,
}
use my_super_ledger.Raft.Log.Defs.{LogEntry, total_size}
use my_super_ledger.Raft.Disk.Memory.{read, write, fill}
use my_super_ledger.Raft.Disk.Crypto.{Crypto, hmac}

pub record Env : Type 0 where
  pub serialize : LogEntry → List ℕ
  pub parse : List ℕ → Option LogEntry
  pub byte_size : LogEntry → ℕ
  pub crypto : Crypto
  pub data_size_limit : ℕ
  pub meta_size_limit : ℕ

pub record LogMeta : Type 0 where
  pub offset : ℕ
  pub length : ℕ
  pub term : ℕ
  pub index : ℕ
  pub digest : List ℕ

-- `n` bytes that are 0
abbrev pub zeros : ℕ → List ℕ
zeros zero = []
zeros (suc n) = 0 ∷ zeros n

abbrev pub zero_meta : LogMeta
zero_meta = record { offset = 0; length = 0; term = 0; index = 0; digest = zeros 32 }

-- sizeof(LogMeta)
abbrev pub meta_size : ℕ
meta_size = 64

pub record Segment : Type 0 where
  pub data_size_limit : ℕ
  pub data_offset : ℕ
  pub bytes : ℕ → ℕ
  pub meta_size_limit : ℕ
  pub meta_offset : ℕ
  pub metas : ℕ → LogMeta
  pub first_index : ℕ
  pub last_index : ℕ
  pub is_active : Bool

-- The constructor of a new active segment, with `createActiveSegment`: the files are emptied.
unfoldable pub create : Env → ℕ → Segment
create E first = record {
  data_size_limit = E.data_size_limit;
  data_offset = 0;
  bytes = λ p. 0;
  meta_size_limit = E.meta_size_limit;
  meta_offset = 0;
  metas = λ p. zero_meta;
  first_index = first;
  last_index = sub64 first 1;
  is_active = true;
}

unfoldable pub close : Segment → Outcome Segment
close s = do assert s.is_active; done (record s { is_active = false })

-- the length in bytes of `n` metas
abbrev pub meta_len : ℕ → ℕ
meta_len n = n * meta_size % 2 ^ 64

unfoldable pub should_roll : Env → List LogEntry → Segment → Outcome Bool
should_roll E es s = do
  assert s.is_active
  done (
      ltb s.meta_size_limit (add64 s.meta_offset (meta_len (length es)))
      || ltb s.data_size_limit (add64 s.data_offset (total_size E.byte_size es % 2 ^ 64)))

unfoldable pub bytes_eq : List ℕ → List ℕ → Bool
bytes_eq [] [] = true
bytes_eq (x ∷ xs) (y ∷ ys) = x == y && bytes_eq xs ys
bytes_eq [] (y ∷ ys) = false
bytes_eq (x ∷ xs) [] = false

-- `std::to_string`: the decimal digits, twenty at most
unfoldable pub digits : ℕ → ℕ → List ℕ → List ℕ
digits zero n rest = rest
digits (suc k) n rest =
    let more = digits k (n / 10) ((48 + n % 10) ∷ rest) in
    if n / 10 == 0 then (48 + n % 10) ∷ rest else more

abbrev pub message : ℕ → List ℕ → List ℕ
message index body = digits 20 index [] ++ body

unfoldable pub create_hmac : Env → (ℕ → ℕ) → ℕ → LogMeta → Outcome LogMeta
create_hmac E bytes version m = if not E.crypto.enabled then done m else (do
  digest ← hmac E.crypto (message m.index (read bytes m.offset m.length)) version
  assert (length digest == 32)
  done (record m { digest = digest }))

-- `descendingVersions.back()`
unfoldable pub last_version : List ℕ → Option ℕ
last_version [] = none
last_version (v ∷ []) = some v
last_version (v ∷ w ∷ ws) = last_version (w ∷ ws)

-- An entry with no key version is sealed by the oldest key.
unfoldable pub seal : Env → (ℕ → ℕ) → LogEntry → LogMeta → Outcome LogMeta
unfolding last_version
seal E bytes e m =
    if not E.crypto.enabled
    then done m
    else if e.secret_key_version == 0
    then (expect (last_version E.crypto.descending_versions) >>= λ oldest.
        create_hmac E bytes oldest m)
    else create_hmac E bytes e.secret_key_version m

-- The data and metas that the loop of `appendEntries` has made, and the offset after them.
pub record Copied : Type 0 where
  pub bytes : ℕ → ℕ
  pub metas : List LogMeta
  pub offset : ℕ

abbrev pub meta_of : Env → ℕ → LogEntry → LogMeta
meta_of E offset e = record {
  offset = offset;
  length = E.byte_size e;
  term = e.term;
  index = e.index;
  digest = zeros 32;
}

unfoldable pub copy_entries : Env → Segment → ℕ → (ℕ → ℕ) → ℕ → List LogEntry → Outcome Copied
copy_entries E s i bytes offset [] = done (record { bytes = bytes; metas = []; offset = offset })
copy_entries E s i bytes offset (e ∷ es) = do
  assert (add64 (add64 s.last_index 1) i == e.index)
  assert (leb (offset + E.byte_size e) s.data_size_limit)
  let bytes' = write (E.serialize e) offset bytes
  m ← seal E bytes' e (meta_of E offset e)
  c ← copy_entries E s (i + 1) bytes' (add64 offset (E.byte_size e)) es
  done (record c { metas = m ∷ c.metas })

unfoldable pub append_entries : Env → List LogEntry → Segment → Outcome Segment
append_entries E es s = do
  assert s.is_active
  c ← copy_entries E s 0 s.bytes s.data_offset es
  head ← expect (get_elem? c.metas 0)
  assert (leb (s.meta_offset + meta_len (length es)) s.meta_size_limit)
  done (record s {
    bytes = c.bytes;
    metas = write c.metas (s.meta_offset / meta_size) s.metas;
    data_offset = c.offset;
    meta_offset = add64 s.meta_offset (meta_len (length es));
    last_index = add64 s.last_index (length es);
  })

abbrev pub is_empty : ℕ → ℕ → Bool
is_empty first last = last == sub64 first 1

abbrev pub is_within_boundary : ℕ → Segment → Bool
is_within_boundary i s =
    not (is_empty s.first_index s.last_index) && not (ltb i s.first_index || ltb s.last_index i)

unfoldable pub get_meta : ℕ → Segment → Outcome LogMeta
get_meta i s = do
  assert (is_within_boundary i s)
  let m = s.metas (sub64 i s.first_index)
  assert (m.index == i)
  done m

-- the bytes at `getEntryAddr`
unfoldable pub entry_bytes : LogMeta → Segment → Outcome (List ℕ)
entry_bytes m s = do assert (leb m.offset s.data_offset); done (read s.bytes m.offset m.length)

-- The loop of `verifyHMAC`: the last digest made, and the position of the key that is used next
-- time. `n` rounds are left, `i` is the round's number.
unfoldable pub try_versions : Env → List ℕ → List ℕ → ℕ → ℕ → ℕ → List ℕ → Outcome (List ℕ × ℕ)
try_versions E msg expected hint zero i real = done (real, hint)
try_versions E msg expected hint (suc n) i real =
    let position =
      add64 (add64 hint i) (length E.crypto.descending_versions)
      % length E.crypto.descending_versions in
    expect (get_elem? E.crypto.descending_versions position) >>= λ version.
    hmac E.crypto msg version >>= λ digest.
    elim (ltb 0 (length digest) && bytes_eq digest expected) [
      | true ↦ done (digest, position)
      | false ↦ try_versions E msg expected hint n (i + 1) digest
    ]

-- `hint` is the position in `mRecentUsedSecKeyIndex`, which readers share; the outcome is the
-- position that is stored there.
unfoldable pub verify_hmac : Env → ℕ → LogMeta → Segment → Outcome ℕ
unfolding try_versions entry_bytes bytes_eq
verify_hmac E hint m s =
    if not E.crypto.enabled
    then done hint
    else if bytes_eq m.digest (zeros 32)
    then done hint
    else (do
      body ← entry_bytes m s
      (real, hint') ←
          try_versions E (message m.index body) m.digest hint (length E.crypto.descending_versions)
            0 []
      assert (bytes_eq real m.digest)
      done hint')

-- the checked bytes of a meta, parsed
unfoldable pub load : Env → ℕ → LogMeta → Segment → Outcome (Option LogEntry)
load E hint m s = do hint' ← verify_hmac E hint m s; body ← entry_bytes m s; done (E.parse body)

-- none: false
unfoldable pub get_entry : Env → ℕ → ℕ → Segment → Outcome (Option LogEntry)
get_entry E hint i s =
    if not (is_within_boundary i s) then done none else (get_meta i s >>= λ m. load E hint m s)

unfoldable pub get_term : ℕ → Segment → Outcome (Option ℕ)
get_term i s =
    if not (is_within_boundary i s) then done none else (get_meta i s >>= λ m. done (some m.term))

-- The `while (true)` of the batch read, on the number of entries that may still be taken: the
-- entries, and whether each one parsed. `hints i` is the shared position when entry `i` is checked.
unfoldable pub batch_loop : Env → (ℕ → ℕ) → ℕ → Segment → ℕ → ℕ → ℕ → Outcome (Bool × List LogEntry)
batch_loop E hints max_len s zero i len = done (true, [])
batch_loop E hints max_len s (suc room) i len = get_meta i s >>= λ m.
    elim (ltb max_len (add64 len m.length)) [
      | true ↦ done (true, [])
      | false ↦ load E (hints i) m s >>= λ o. elim o [
        | none ↦ done (false, [])
        | some e ↦ batch_loop E hints max_len s room (add64 i 1) (add64 len m.length) >>= λ r.
            done (r.0, e ∷ r.1)
      ]
    ]

-- The number that is returned, and what is in `entries` then.
unfoldable pub get_entries : Env → (ℕ → ℕ) → ℕ → ℕ → ℕ → Segment → Outcome (ℕ × List LogEntry)
get_entries E hints start max_len max_batch s = do
  assert (is_within_boundary start s)
  r ← batch_loop E hints max_len s (min max_batch (add64 (sub64 s.last_index start) 1)) start 0
  done (if r.0 then length r.1 else 0, r.1)

-- The segment after the metas are cut.
abbrev pub wiped : ℕ → Segment → Segment
wiped kept s =
    let offset = meta_len (add64 (sub64 kept s.first_index) 1) in
    record s {
      last_index = kept;
      meta_offset = offset;
      metas = fill zero_meta (offset / meta_size) (sub64 s.last_index kept) s.metas;
    }

unfoldable pub truncate_suffix : ℕ → Segment → Outcome Segment
truncate_suffix kept s =
    if leb s.last_index kept
    then done s
    else (get_meta kept (wiped kept s) >>= λ m.
        done (record (wiped kept s) { data_offset = add64 m.offset m.length }))
