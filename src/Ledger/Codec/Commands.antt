-- ===== src/Ledger/Codec/Commands.antt =====
-- The commands' constructors with `verifyCommand`, and the events' `encodeToString` and
-- `decodeFromString`. A request is the message that it carries.
use text.Mathlib.Text.{◌==◌ as str_eq}
use my_super_ledger.Prelude.{
  ℕ, String, Option, none, some, Outcome, done, abort, ◌>>=◌, ◌>>◌, assert, ltb, leb, ◌==◌,
  if◌then◌else◌, ◌≡◌,
}
use my_super_ledger.Ledger.Domain.Kind.{unknown}
use my_super_ledger.Ledger.Domain.Account.{Account, AccountMetadata}
use my_super_ledger.Ledger.Domain.Journal.{JournalEntry}
use my_super_ledger.Ledger.Machine.Defs.{
  Command, configure_account_metadata, create_account, record_journal_entry,
}
use my_super_ledger.Ledger.Codec.Messages.{AccountMessage, MetadataMessage, EntryMessage}
use my_super_ledger.Ledger.Codec.Defs.{
  account_init, account_encode, metadata_init, metadata_encode, entry_init, entry_encode,
}

-- `Command::kVerifiedSuccess`
abbrev pub verified_success : String
verified_success = "Success"

unfoldable pub verify_create : (P : AccountMessage) → P.Carrier → String
verify_create P m =
    if (P.fields m).type == P.types.code unknown
    then "account type should not be unknown"
    else verified_success

-- `CreateAccountCommand` with `tryInitAccount`
unfoldable pub create_command : (P : AccountMessage) → P.Carrier → Outcome Command
unfolding verify_create
create_command P m =
    if str_eq verified_success (verify_create P m)
    then (do account ← account_init P m; done (create_account (some account)))
    else done (create_account none)

unfoldable pub verify_configure : (P : MetadataMessage) → P.Carrier → String
verify_configure P m =
    if leb (P.fields m).high_inclusive (P.fields m).low_inclusive
    then "low inclusive is larger than high inclusive"
    else verified_success

-- `ConfigureAccountMetadataCommand` with `tryInitAccountMetadata`
unfoldable pub configure_command : (P : MetadataMessage) → P.Carrier → Outcome Command
unfolding verify_configure
configure_command P m =
    if str_eq verified_success (verify_configure P m)
    then (do metadata ← metadata_init P m; done (configure_account_metadata (some metadata)))
    else done (configure_account_metadata none)

unfoldable pub verify_record : (P : EntryMessage) → Option P.Carrier → String
verify_record P none = "Journal entry is required"
verify_record P (some m) = verified_success

-- The message that `journal_entry()` gives: `empty` when the request has none.
abbrev pub journal_entry_of : (P : EntryMessage) → P.Carrier → Option P.Carrier → P.Carrier
journal_entry_of P empty none = empty
journal_entry_of P empty (some m) = m

-- `RecordJournalEntryCommand` with `tryInitJournalEntry`
unfoldable pub record_command : (P : EntryMessage) → P.Carrier → Option P.Carrier → Outcome Command
unfolding verify_record
record_command P empty request =
    if str_eq verified_success (verify_record P request)
    then (do
      entry ← entry_init P (journal_entry_of P empty request)
      done (record_journal_entry (some entry)))
    else done (record_journal_entry none)

-- The message of an event: a version and a payload, and its serialization, which reads back.
pub record EventMessage (Payload : Type 0) : Type 1 where
  pub Carrier : Type 0
  pub Bytes : Type 0
  pub fresh : Carrier
  pub version : Carrier → ℕ
  pub payload : Carrier → Payload
  pub set_version : ℕ → Carrier → Carrier
  pub set_payload : Payload → Carrier → Carrier
  pub serialize : Carrier → Bytes
  pub parse : Bytes → Carrier
  pub version-set_version : (v : ℕ) (m : Carrier) → version (set_version v m) ≡ v
  pub payload-set_version : (v : ℕ) (m : Carrier) → payload (set_version v m) ≡ payload m
  pub version-set_payload : (p : Payload) (m : Carrier) → version (set_payload p m) ≡ version m
  pub payload-set_payload : (p : Payload) (m : Carrier) → payload (set_payload p m) ≡ p
  pub version-parse : (m : Carrier) → version (parse (serialize m)) ≡ version m
  pub payload-parse : (m : Carrier) → payload (parse (serialize m)) ≡ payload m

-- `encodeToString` and `decodeFromString` of the three events, by the coding of what they carry.
unfoldable pub event_encode :
    {Payload A : Type 0} (M : EventMessage Payload)
    → (A → Payload → Outcome Payload)
    → ℕ
    → A
    → Outcome M.Bytes
event_encode M encode version a =
    let m = M.set_version version M.fresh in
    if version == 1
    then (do filled ← encode a (M.payload m); done (M.serialize (M.set_payload filled m)))
    else abort

unfoldable pub event_decode :
    {Payload A : Type 0} (M : EventMessage Payload) → (Payload → Outcome A) → M.Bytes → Outcome A
event_decode M decode text =
    let m = M.parse text in
    do assert (ltb 0 (M.version m)); if M.version m == 1 then decode (M.payload m) else abort

abbrev pub account_created_encode :
    (P : AccountMessage) (M : EventMessage P.Carrier) → Account → Outcome M.Bytes
account_created_encode P M a = event_encode M (account_encode P) 1 a

abbrev pub account_created_decode :
    (P : AccountMessage) (M : EventMessage P.Carrier) → M.Bytes → Outcome Account
account_created_decode P M text = event_decode M (account_init P) text

abbrev pub metadata_configured_encode :
    (P : MetadataMessage) (M : EventMessage P.Carrier) → AccountMetadata → Outcome M.Bytes
metadata_configured_encode P M a = event_encode M (metadata_encode P) 1 a

abbrev pub metadata_configured_decode :
    (P : MetadataMessage) (M : EventMessage P.Carrier) → M.Bytes → Outcome AccountMetadata
metadata_configured_decode P M text = event_decode M (metadata_init P) text

abbrev pub entry_recorded_encode :
    (P : EntryMessage) (M : EventMessage P.Carrier) → JournalEntry → Outcome M.Bytes
entry_recorded_encode P M a = event_encode M (entry_encode P) 1 a

abbrev pub entry_recorded_decode :
    (P : EntryMessage) (M : EventMessage P.Carrier) → M.Bytes → Outcome JournalEntry
entry_recorded_decode P M text = event_decode M (entry_init P) text
