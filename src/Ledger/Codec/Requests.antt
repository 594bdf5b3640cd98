-- ===== src/Ledger/Codec/Requests.antt =====
-- What a request's command holds, and what an event reads back.
use mathlib.Core.Path.{subst}
use my_super_ledger.Prelude.{
  ℕ, ◌<◌, false, none, some, [], Outcome, done, leb, ◌==◌, ◌≡◌, ◌≢◌, refl, sym, ◌∙◌, ap, arith,
  Bool-cases, inl, inr, >>=-eq-done, done-injective,
}
use my_super_ledger.Ledger.Domain.Kind.{
  AccountType, unknown, asset, liability, capital, income, cost_of_goods_sold, expense,
}
use my_super_ledger.Ledger.Domain.Account.{Account, AccountMetadata}
use my_super_ledger.Ledger.Domain.Journal.{JournalEntry}
use my_super_ledger.Ledger.Machine.Defs.{Command, configure_account_metadata}
use my_super_ledger.Ledger.Machine.Total.{WellFormed}
use my_super_ledger.Ledger.Codec.Messages.{Codes, AccountMessage, MetadataMessage, EntryMessage}
use my_super_ledger.Ledger.Codec.Defs.{
  account_type_of, account_init, account_encode, metadata_init, metadata_encode, entry_init,
  entry_encode,
}
use my_super_ledger.Ledger.Codec.RoundTrip.{account_type_of-code, account_round, metadata_round}
use my_super_ledger.Ledger.Codec.EntryRound.{entry_round}
use my_super_ledger.Ledger.Codec.Commands.{
  verify_create, verify_configure, create_command, configure_command, EventMessage, event_encode,
  event_decode, account_created_encode, account_created_decode, entry_recorded_encode,
  entry_recorded_decode, metadata_configured_encode, metadata_configured_decode,
}

-- The range of a configuration command is not empty: its low end is below its high end.
pub configure_command_lem :
    (P : MetadataMessage) (m : P.Carrier) (a : AccountMetadata)
    → configure_command P m ≡ done (configure_account_metadata (some a))
    → a.low_inclusive < a.high_inclusive
unfolding configure_command verify_configure metadata_init
configure_command_lem P m a h =
    elim (Bool-cases (leb (P.fields m).high_inclusive (P.fields m).low_inclusive)) [
      | inl bad ↦ absurd (nothing (rw bad at h))
      | inr good ↦
          let (x, decoded, h₁) = >>=-eq-done (metadata_init P m) _ (rw good at h) in ground arith
    ]
  where
    nothing :
        done (configure_account_metadata none) ≡ done (configure_account_metadata (some a)) → ⊥
    nothing e = cc

account_type-init :
    (P : AccountMessage) (m : P.Carrier) (a : Account)
    → account_init P m ≡ done a
    → a.account_type ≡ account_type_of P.types (P.fields m).type
unfolding account_init
account_type-init P m a h = ground arith

-- A request whose type is one of the enumeration's constants gives a well-formed command.
pub create_command-WellFormed :
    (P : AccountMessage) (m : P.Carrier) (t : AccountType) (c : Command)
    → (P.fields m).type ≡ P.types.code t
    → create_command P m ≡ done c
    → WellFormed c
unfolding create_command verify_create
create_command-WellFormed P m t c typed h =
    elim (Bool-cases ((P.fields m).type == P.types.code unknown)) [
      | inl none_given ↦ subst WellFormed (done-injective (rw none_given at h)) tt
      | inr given ↦
          let (a, decoded, h₁) = >>=-eq-done (account_init P m) _ (rw given at h) in
          subst WellFormed (done-injective h₁) (λ e. known a decoded (ground arith) e)
    ]
  where
    known :
        (a : Account)
        → account_init P m ≡ done a
        → (P.fields m).type ≢ P.types.code unknown
        → a.account_type ≢ unknown
    known a decoded other e =
        let same : t ≡ unknown =
          sym (account_type_of-code P.types t)
          ∙ ap (account_type_of P.types) (sym typed)
          ∙ sym (account_type-init P m a decoded)
          ∙ e in
        other (typed ∙ ap P.types.code same)

type_of_none :
    (C : Codes AccountType) (n : ℕ)
    → ((t : AccountType) → n ≢ C.code t)
    → account_type_of C n ≡ unknown
unfolding account_type_of
type_of_none C n no_code = ground (
  arith,
  no_code unknown,
  no_code asset,
  no_code liability,
  no_code capital,
  no_code income,
  no_code cost_of_goods_sold,
  no_code expense,
)

-- A type that is no constant passes the check, and the command is then not well-formed: its
-- account is of the unknown type.
pub create_command_unknown :
    (P : AccountMessage) (m : P.Carrier) (c : Command)
    → ((t : AccountType) → (P.fields m).type ≢ P.types.code t)
    → create_command P m ≡ done c
    → ¬ WellFormed c
unfolding create_command verify_create
create_command_unknown P m c no_code h w =
    let given : (P.fields m).type == P.types.code unknown ≡ false =
      ground (arith, no_code unknown) in
    let (a, decoded, h₁) = >>=-eq-done (account_init P m) _ (rw given at h) in
    let typed : a.account_type ≡ unknown =
      account_type-init P m a decoded ∙ type_of_none P.types (P.fields m).type no_code in
    subst WellFormed (sym (done-injective h₁)) w typed

event_round :
    {Payload A : Type 0} (M : EventMessage Payload) (encode : A → Payload → Outcome Payload)
    (decode : Payload → Outcome A) (a : A) (text : M.Bytes)
    → event_encode M encode 1 a ≡ done text
    → (filled : Payload) × (encode a (M.payload M.fresh) ≡ done filled)
      × (event_decode M decode text ≡ decode filled)
unfolding event_encode event_decode
event_round M encode decode a text h =
    let m = M.set_version 1 M.fresh in
    let (filled, coded, h₁) = >>=-eq-done (encode a (M.payload m)) _ h in
    let written : M.serialize (M.set_payload filled m) ≡ text = done-injective h₁ in
    let version : M.version (M.parse text) ≡ 1 =
      ap (λ x. M.version (M.parse x)) (sym written)
      ∙ simp (M.version-parse, M.version-set_payload, M.version-set_version) in
    let payload : M.payload (M.parse text) ≡ filled =
      ap (λ x. M.payload (M.parse x)) (sym written)
      ∙ simp (M.payload-parse, M.payload-set_payload) in
    (
      filled,
      ap (encode a) (sym (M.payload-set_version 1 M.fresh)) ∙ coded,
      rw (version, payload) refl,
    )

-- The event of a created account reads back as that account.
pub created_event_round :
    (P : AccountMessage) (M : EventMessage P.Carrier) (a : Account) (text : M.Bytes)
    → account_created_encode P M a ≡ done text
    → account_created_decode P M text ≡ done a
created_event_round P M a text h =
    let (filled, coded, decoded) = event_round M (account_encode P) (account_init P) a text h in
    decoded ∙ account_round P a (M.payload M.fresh) filled coded

-- The event of a recorded entry reads back as that entry with the id lost: where a fresh message
-- has no lines and the empty id, the entry has the empty id.
pub recorded_event_loses_id :
    (P : EntryMessage) (M : EventMessage P.Carrier) (e : JournalEntry) (text : M.Bytes)
    → (P.fields (M.payload M.fresh)).journal_lines ≡ []
    → (P.fields (M.payload M.fresh)).id ≡ ""
    → entry_recorded_encode P M e ≡ done text
    → entry_recorded_decode P M text ≡ done (record e { id = "" })
recorded_event_loses_id P M e text no_lines no_id h =
    let (filled, coded, decoded) = event_round M (entry_encode P) (entry_init P) e text h in
    decoded
    ∙ entry_round P e (M.payload M.fresh) filled no_lines coded
    ∙ ap (λ i. done (record e { id = i })) no_id

-- The event of a configured account type reads back as its metadata.
pub configured_event_round :
    (P : MetadataMessage) (M : EventMessage P.Carrier) (a : AccountMetadata) (text : M.Bytes)
    → metadata_configured_encode P M a ≡ done text
    → metadata_configured_decode P M text ≡ done a
configured_event_round P M a text h =
    let (filled, coded, decoded) = event_round M (metadata_encode P) (metadata_init P) a text h in
    decoded ∙ metadata_round P a (M.payload M.fresh) filled coded
