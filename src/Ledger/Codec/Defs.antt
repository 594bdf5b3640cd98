-- ===== src/Ledger/Codec/Defs.antt =====
-- `initWith` and `encodeTo` of the ledger's values. An `encodeTo` fills the message that it is given.
use my_super_ledger.Prelude.{
  ℕ, List, [], ◌∷◌, Outcome, done, abort, ◌>>=◌, ◌>>◌, assert, ltb, ◌==◌, if◌then◌else◌,
}
use my_super_ledger.Ledger.Domain.Kind.{
  AccountType, unknown, asset, liability, capital, income, cost_of_goods_sold, expense,
  TransactionType, untyped, debit, credit,
}
use my_super_ledger.Ledger.Domain.Money.{Amount, Balance}
use my_super_ledger.Ledger.Domain.Account.{Account, AccountMetadata}
use my_super_ledger.Ledger.Domain.Journal.{JournalLine, JournalEntry}
use my_super_ledger.Ledger.Codec.Messages.{
  Codes, ValueMessage, AccountMessage, MetadataMessage, LineMessage, EntryMessage,
}

-- `AccountTypeUtil::typeOf`
unfoldable pub account_type_of : Codes AccountType → ℕ → AccountType
account_type_of C n =
    if n == C.code unknown
    then unknown
    else if n == C.code asset
    then asset
    else if n == C.code liability
    then liability
    else if n == C.code capital
    then capital
    else if n == C.code income
    then income
    else if n == C.code cost_of_goods_sold
    then cost_of_goods_sold
    else if n == C.code expense
    then expense
    else unknown

-- `TransactionTypeUtil::typeOf`
unfoldable pub transaction_type_of : Codes TransactionType → ℕ → TransactionType
transaction_type_of C n =
    if n == C.code untyped
    then untyped
    else if n == C.code debit
    then debit
    else if n == C.code credit
    then credit
    else untyped

-- `Amount(const protos::Amount &)`
unfoldable pub amount_init : (P : ValueMessage) → P.Carrier → Outcome Amount
amount_init P m = do
  assert (ltb 0 (P.fields m).version)
  if (P.fields m).version == 1
      then done (record { version = (P.fields m).version; value = (P.fields m).value })
      else abort

unfoldable pub amount_encode : (P : ValueMessage) → Amount → P.Carrier → Outcome P.Carrier
amount_encode P a m =
    if a.version == 1 then done (P.set_value a.value (P.set_version a.version m)) else abort

-- `Balance(const protos::Balance &)`
unfoldable pub balance_init : (P : ValueMessage) → P.Carrier → Outcome Balance
balance_init P m = do
  assert (ltb 0 (P.fields m).version)
  if (P.fields m).version == 1
      then done (record { version = (P.fields m).version; value = (P.fields m).value })
      else abort

unfoldable pub balance_encode : (P : ValueMessage) → Balance → P.Carrier → Outcome P.Carrier
balance_encode P b m =
    if b.version == 1 then done (P.set_value b.value (P.set_version b.version m)) else abort

unfoldable pub account_init : (P : AccountMessage) → P.Carrier → Outcome Account
account_init P m = do
  assert (ltb 0 (P.fields m).version)
  if (P.fields m).version == 1
      then (do
        balance ← balance_init P.balances (P.fields m).balance
        done (record {
          version = (P.fields m).version;
          account_type = account_type_of P.types (P.fields m).type;
          nominal_code = (P.fields m).nominal_code;
          name = (P.fields m).name;
          desc = (P.fields m).desc;
          iso4217_currency_code = (P.fields m).iso4217_currency_code;
          balance = balance;
        }))
      else abort

-- The setters that follow the balance.
abbrev pub account_tail : (P : AccountMessage) → Account → P.Carrier → P.Carrier
account_tail P a m =
    P.set_currency a.iso4217_currency_code
      (P.set_desc a.desc (P.set_name a.name (P.set_nominal_code a.nominal_code m)))

unfoldable pub account_encode : (P : AccountMessage) → Account → P.Carrier → Outcome P.Carrier
account_encode P a m =
    if a.version == 1
    then (let typed = P.set_type (P.types.code a.account_type) (P.set_version a.version m) in
        do
          balance ← balance_encode P.balances a.balance (P.fields typed).balance
          done (account_tail P a (P.set_balance balance typed)))
    else abort

unfoldable pub metadata_init : (P : MetadataMessage) → P.Carrier → Outcome AccountMetadata
metadata_init P m = do
  assert (ltb 0 (P.fields m).version)
  if (P.fields m).version == 1
      then done (record {
        version = (P.fields m).version;
        account_type = account_type_of P.types (P.fields m).type;
        low_inclusive = (P.fields m).low_inclusive;
        high_inclusive = (P.fields m).high_inclusive;
      })
      else abort

unfoldable pub metadata_encode :
    (P : MetadataMessage) → AccountMetadata → P.Carrier → Outcome P.Carrier
metadata_encode P a m =
    if a.version == 1
    then done (
        P.set_high a.high_inclusive (
          P.set_low a.low_inclusive
            (P.set_type (P.types.code a.account_type) (P.set_version a.version m))))
    else abort

unfoldable pub line_init : (P : LineMessage) → P.Carrier → Outcome JournalLine
line_init P m = do
  assert (ltb 0 (P.fields m).version)
  if (P.fields m).version == 1
      then (do
        amount ← amount_init P.amounts (P.fields m).amount
        done (record {
          version = (P.fields m).version;
          nominal_code = (P.fields m).nominal_code;
          transaction_type = transaction_type_of P.types (P.fields m).transaction_type;
          amount = amount;
          iso4217_currency_code = (P.fields m).iso4217_currency_code;
          ref_data = (P.fields m).ref_data;
        }))
      else abort

unfoldable pub line_encode : (P : LineMessage) → JournalLine → P.Carrier → Outcome P.Carrier
line_encode P l m =
    if l.version == 1
    then (let coded =
          P.set_nominal_code l.nominal_code
            (P.set_type (P.types.code l.transaction_type) (P.set_version l.version m)) in
        do
          amount ← amount_encode P.amounts l.amount (P.fields coded).amount
          done (
              P.set_ref_data l.ref_data
                (P.set_currency l.iso4217_currency_code (P.set_amount amount coded))))
    else abort

-- The loop of `JournalEntry::initWith`.
unfoldable pub lines_init : (P : LineMessage) → List P.Carrier → Outcome (List JournalLine)
lines_init P [] = done []
lines_init P (m ∷ ms) = do line ← line_init P m; lines ← lines_init P ms; done (line ∷ lines)

unfoldable pub entry_init : (P : EntryMessage) → P.Carrier → Outcome JournalEntry
entry_init P m = do
  assert (ltb 0 (P.fields m).version)
  if (P.fields m).version == 1
      then (do
        lines ← lines_init P.lines (P.fields m).journal_lines
        done (record {
          version = (P.fields m).version;
          id = (P.fields m).id;
          valid_time = (P.fields m).valid_time;
          record_time = (P.fields m).record_time;
          journal_lines = lines;
          purpose = (P.fields m).purpose;
        }))
      else abort

-- The loop of `JournalEntry::encodeTo`.
unfoldable pub lines_encode : (P : EntryMessage) → List JournalLine → P.Carrier → Outcome P.Carrier
lines_encode P [] m = done m
lines_encode P (l ∷ ls) m = do
  line ← line_encode P.lines l P.new_line
  lines_encode P ls (P.add_line line m)

-- The id is set to the message's own, as in the source.
unfoldable pub entry_encode : (P : EntryMessage) → JournalEntry → P.Carrier → Outcome P.Carrier
entry_encode P e m =
    if e.version == 1
    then (let numbered = P.set_version e.version m in
        lines_encode P e.journal_lines (
          P.set_purpose e.purpose (
            P.set_record_time e.record_time
              (P.set_valid_time e.valid_time (P.set_id (P.fields numbered).id numbered)))))
    else abort
