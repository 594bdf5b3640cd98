-- ===== src/Raft/Log/Defs.antt =====
-- InMemoryLog: the entries at the indices from `first_index` to `last_index`, the current term and
-- the vote. `ByteSizeLong`, which protobuf generates, is the argument `byte_size`.
use my_super_ledger.Prelude.{
  ℕ, zero, suc, ◌+◌, String, Bool, true, false, Option, none, some, List, [], ◌∷◌, ◌++◌, Outcome,
  done, ◌>>=◌, ◌>>◌, assert, expect, get_elem?, take, drop, ltb, leb, ◌==◌, ◌||◌, not, min, add64,
  sub64, if◌then◌else◌,
}
use mathlib.Core.Option

pub record SpecialTag : Type 0 where
  pub identifier : ℕ
  pub payload : String

pub record LogEntry : Type 0 where
  pub term : ℕ
  pub index : ℕ
  pub noop : Bool
  pub checksum : ℕ
  pub payload : String
  pub secret_key_version : ℕ
  pub special_tag : Option SpecialTag

pub record Log : Type 0 where
  pub entries : List LogEntry
  pub first_index : ℕ
  pub last_index : ℕ
  pub current_term : ℕ
  pub vote_for : ℕ

abbrev pub empty_log : Log
empty_log = record { entries = []; first_index = 1; last_index = 0; current_term = 0; vote_for = 0 }

-- false: the entry does not follow the last one, and nothing is written
unfoldable pub append_entry : LogEntry → Log → Bool × Log
append_entry e l =
    if not (add64 l.last_index 1 == e.index)
    then (false, l)
    else (true, record l { entries = l.entries ++ e ∷ []; last_index = add64 l.last_index 1 })

-- The loop goes on only after an append that succeeded.
abbrev pub proceed : (Log → Bool × Log) → Bool × Log → Bool × Log
proceed next (true, l) = next l
proceed next (false, l) = (false, l)

-- false: some entry did not follow; those before it stay written
unfoldable pub append_entries : List LogEntry → Log → Bool × Log
unfolding append_entry
append_entries [] l = (true, l)
append_entries (e ∷ es) l = proceed (append_entries es) (append_entry e l)

-- What `getEntry` gives at index 0; the key version is `kInvalidSecKeyVersion`.
abbrev pub dummy_entry : LogEntry
dummy_entry = record {
  term = 0;
  index = 0;
  noop = false;
  checksum = 0;
  payload = "";
  secret_key_version = 0;
  special_tag = none;
}

abbrev pub out_of_range : ℕ → Log → Bool
out_of_range i l = ltb i l.first_index || ltb l.last_index i

-- `mLog[index - mFirstIndex]`
abbrev pub slot : ℕ → Log → Option LogEntry
slot i l = get_elem? l.entries (sub64 i l.first_index)

unfoldable pub get_entry : ℕ → Log → Option LogEntry
get_entry i l = if i == 0 then some dummy_entry else if out_of_range i l then none else slot i l

unfoldable pub get_term : ℕ → Log → Option ℕ
get_term i l =
    if i == 0
    then some 0
    else if out_of_range i l
    then none
    else Option.map (λ (e : LogEntry). e.term) (slot i l)

-- the sum of the entries' `ByteSizeLong`
abbrev pub total_size : (LogEntry → ℕ) → List LogEntry → ℕ
total_size byte_size [] = 0
total_size byte_size (e ∷ es) = byte_size e + total_size byte_size es

-- The last test of the loop of `getEntries`: an entry that would pass the limit ends the batch.
abbrev pub take_or_stop : Bool → LogEntry → Outcome (List LogEntry) → Outcome (List LogEntry)
take_or_stop true e rest = done []
take_or_stop false e rest = rest >>= λ es. done (e ∷ es)

-- The `while (true)` of `getEntries`, on the number of entries that may still be taken.
unfoldable pub batch_loop : (LogEntry → ℕ) → ℕ → Log → ℕ → ℕ → ℕ → Outcome (List LogEntry)
batch_loop byte_size max_len l zero index len = done []
batch_loop byte_size max_len l (suc room) index len = expect (slot index l) >>= λ e.
    take_or_stop (ltb max_len (add64 len (byte_size e))) e
      (batch_loop byte_size max_len l room (add64 index 1) (add64 len (byte_size e)))

-- `getEntries(startIndex, maxLenInBytes, maxBatchSize, entries)`; the number that it returns is the
-- length of the list.
unfoldable pub get_entries : (LogEntry → ℕ) → ℕ → ℕ → ℕ → Log → Outcome (List LogEntry)
unfolding batch_loop
get_entries byte_size start max_len max_batch l =
    if ltb l.last_index start
    then (do assert (start == add64 l.last_index 1); done [])
    else batch_loop byte_size max_len l (min max_batch (add64 (sub64 l.last_index start) 1)) start 0

unfoldable pub truncate_prefix : ℕ → Log → Log
truncate_prefix kept l =
    if leb kept l.first_index
    then l
    else if ltb l.last_index kept
    then record l { entries = []; first_index = kept; last_index = sub64 kept 1 }
    else record l { entries = drop (sub64 kept l.first_index) l.entries; first_index = kept }

unfoldable pub truncate_suffix : ℕ → Log → Log
truncate_suffix kept l =
    if leb l.last_index kept
    then l
    else if ltb kept l.first_index
    then record l { entries = []; first_index = add64 kept 1; last_index = kept }
    else record l {
      entries = take (add64 (sub64 kept l.first_index) 1) l.entries;
      last_index = kept;
    }

unfoldable pub set_current_term : ℕ → Log → Log
set_current_term term l = record l { current_term = term }

unfoldable pub set_vote_for : ℕ → Log → Log
set_vote_for vote l = record l { vote_for = vote }
