-- ===== src/Ledger/Codec/RoundTrip.antt =====
-- Reading back what was written.
use my_super_ledger.Prelude.{
  done, ◌==◌, ◌≡◌, sym, ◌∙◌, ap, arith, Bool-cases, inl, inr, >>=-eq-done, done-injective,
}
use my_super_ledger.Ledger.Domain.Kind.{
  AccountType, unknown, asset, liability, capital, income, cost_of_goods_sold, expense,
  TransactionType, untyped, debit, credit,
}
use my_super_ledger.Ledger.Domain.Money.{Amount, Balance}
use my_super_ledger.Ledger.Domain.Account.{Account, AccountMetadata}
use my_super_ledger.Ledger.Domain.Journal.{JournalLine}
use my_super_ledger.Ledger.Codec.Messages.{
  Codes, ValueMessage, AccountMessage, MetadataMessage, LineMessage, ValueFields,
}
use my_super_ledger.Ledger.Codec.Defs.{
  account_type_of, transaction_type_of, amount_init, amount_encode, balance_init, balance_encode,
  account_init, account_encode, metadata_init, metadata_encode, line_init, line_encode,
  account_tail,
}

pub account_type_of-code :
    (C : Codes AccountType) (t : AccountType) → account_type_of C (C.code t) ≡ t
unfolding account_type_of
account_type_of-code C unknown = ground arith
account_type_of-code C asset = ground (arith, C.distinct asset unknown)
account_type_of-code C liability =
    ground (arith, C.distinct liability unknown, C.distinct liability asset)
account_type_of-code C capital =
    ground
      (arith, C.distinct capital unknown, C.distinct capital asset, C.distinct capital liability)
account_type_of-code C income = ground (
  arith,
  C.distinct income unknown,
  C.distinct income asset,
  C.distinct income liability,
  C.distinct income capital,
)
account_type_of-code C cost_of_goods_sold = ground (
  arith,
  C.distinct cost_of_goods_sold unknown,
  C.distinct cost_of_goods_sold asset,
  C.distinct cost_of_goods_sold liability,
  C.distinct cost_of_goods_sold capital,
  C.distinct cost_of_goods_sold income,
)
account_type_of-code C expense = ground (
  arith,
  C.distinct expense unknown,
  C.distinct expense asset,
  C.distinct expense liability,
  C.distinct expense capital,
  C.distinct expense income,
  C.distinct expense cost_of_goods_sold,
)

transaction_type_of-code :
    (C : Codes TransactionType) (t : TransactionType) → transaction_type_of C (C.code t) ≡ t
unfolding transaction_type_of
transaction_type_of-code C untyped = ground arith
transaction_type_of-code C debit = ground (arith, C.distinct debit untyped)
transaction_type_of-code C credit =
    ground (arith, C.distinct credit untyped, C.distinct credit debit)

balance_round :
    (P : ValueMessage) (b : Balance) (m m' : P.Carrier)
    → balance_encode P b m ≡ done m'
    → balance_init P m' ≡ done b
unfolding balance_encode balance_init
balance_round P b m m' h = elim (Bool-cases (b.version == 1)) [
  | inr other ↦ absurd (ground arith)
  | inl first ↦
      let written : P.set_value b.value (P.set_version b.version m) ≡ m' =
        done-injective (rw first at h) in
      let read : P.fields m' ≡ record { version = b.version; value = b.value } =
        ap P.fields (sym written)
        ∙ P.on_value b.value (P.set_version b.version m)
        ∙ ap (λ (f : ValueFields). record f { value = b.value }) (P.on_version b.version m) in
      rw read (ground arith)
]

account_fields :
    (P : AccountMessage) (a : Account) (m : P.Carrier) (balance : P.balances.Carrier)
    → P.fields (
        account_tail P a (
          P.set_balance balance
            (P.set_type (P.types.code a.account_type) (P.set_version a.version m))))
      ≡ record {
        version = a.version;
        type = P.types.code a.account_type;
        balance = balance;
        nominal_code = a.nominal_code;
        name = a.name;
        desc = a.desc;
        iso4217_currency_code = a.iso4217_currency_code;
      }
account_fields P a m balance =
    simp (
      P.on_currency, P.on_desc, P.on_name, P.on_nominal_code, P.on_balance, P.on_type, P.on_version,
    )

-- What is written of an account reads back as that account.
pub account_round :
    (P : AccountMessage) (a : Account) (m m' : P.Carrier)
    → account_encode P a m ≡ done m'
    → account_init P m' ≡ done a
unfolding account_encode account_init
account_round P a m m' h = elim (Bool-cases (a.version == 1)) [
  | inr other ↦ absurd (ground arith)
  | inl first ↦
      let typed = P.set_type (P.types.code a.account_type) (P.set_version a.version m) in
      let (balance, coded, h₁) =
        >>=-eq-done (balance_encode P.balances a.balance (P.fields typed).balance) _
          (rw first at h) in
      let kept = balance_round P.balances a.balance (P.fields typed).balance balance coded in
      let written : account_tail P a (P.set_balance balance typed) ≡ m' = done-injective h₁ in
      let read = ap P.fields (sym written) ∙ account_fields P a m balance in
      rw (read, account_type_of-code P.types a.account_type, kept) (ground arith)
]

-- What is written of an account's metadata reads back as them.
pub metadata_round :
    (P : MetadataMessage) (a : AccountMetadata) (m m' : P.Carrier)
    → metadata_encode P a m ≡ done m'
    → metadata_init P m' ≡ done a
unfolding metadata_encode metadata_init
metadata_round P a m m' h = elim (Bool-cases (a.version == 1)) [
  | inr other ↦ absurd (ground arith)
  | inl first ↦
      let written = done-injective (rw first at h) in
      let read : P.fields m' ≡ record {
        version = a.version;
        type = P.types.code a.account_type;
        low_inclusive = a.low_inclusive;
        high_inclusive = a.high_inclusive;
      } =
        ap P.fields (sym written) ∙ simp (P.on_high, P.on_low, P.on_type, P.on_version) in
      rw (read, account_type_of-code P.types a.account_type) (ground arith)
]

amount_round :
    (P : ValueMessage) (a : Amount) (m m' : P.Carrier)
    → amount_encode P a m ≡ done m'
    → amount_init P m' ≡ done a
unfolding amount_encode amount_init
amount_round P b m m' h = elim (Bool-cases (b.version == 1)) [
  | inr other ↦ absurd (ground arith)
  | inl first ↦
      let written : P.set_value b.value (P.set_version b.version m) ≡ m' =
        done-injective (rw first at h) in
      let read : P.fields m' ≡ record { version = b.version; value = b.value } =
        ap P.fields (sym written) ∙ simp (P.on_value, P.on_version) in
      rw read (ground arith)
]

pub line_round :
    (P : LineMessage) (l : JournalLine) (m m' : P.Carrier)
    → line_encode P l m ≡ done m'
    → line_init P m' ≡ done l
unfolding line_encode line_init
line_round P l m m' h = elim (Bool-cases (l.version == 1)) [
  | inr other ↦ absurd (ground arith)
  | inl first ↦
      let coded =
        P.set_nominal_code l.nominal_code
          (P.set_type (P.types.code l.transaction_type) (P.set_version l.version m)) in
      let (amount, filled, h₁) =
        >>=-eq-done (amount_encode P.amounts l.amount (P.fields coded).amount) _ (rw first at h) in
      let kept = amount_round P.amounts l.amount (P.fields coded).amount amount filled in
      let read : P.fields m' ≡ record {
        version = l.version;
        transaction_type = P.types.code l.transaction_type;
        nominal_code = l.nominal_code;
        amount = amount;
        iso4217_currency_code = l.iso4217_currency_code;
        ref_data = l.ref_data;
      } =
        ap P.fields (sym (done-injective h₁))
        ∙ simp (
          P.on_ref_data, P.on_currency, P.on_amount, P.on_nominal_code, P.on_type, P.on_version,
        ) in
      rw (read, transaction_type_of-code P.types l.transaction_type, kept) (ground arith)
]
