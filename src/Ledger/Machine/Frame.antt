-- ===== src/Ledger/Machine/Frame.antt =====
-- What the lines of an entry leave alone: an account's type, currency and code, and which codes
-- there are. So the lines that were checked before the first of them is applied still fit.
use mathlib.Core.Path.{subst}
use my_super_ledger.Prelude.{
  ℕ, ◌≡◌, ◌≢◌, refl, sym, ◌∙◌, inl, inr, some, List, [], ◌∷◌, done, >>=-eq-done, done-injective,
  some_injective, nat_eq, string_eq, Map, lookup, insert, lookup-insert, arith, Bool-cases, ◌==◌,
  ==_iff,
}
use my_super_ledger.Ledger.Domain.Kind.{
  AccountType, unknown, TransactionType, untyped, debit, credit, account_type_eq,
}
use my_super_ledger.Ledger.Domain.Money.{Amount, Balance}
use my_super_ledger.Ledger.Domain.Account.{Account, debit_balance, credit_balance}
use my_super_ledger.Ledger.Domain.Journal.{JournalLine}
use my_super_ledger.Ledger.Machine.Defs.{apply_typed, apply_line, apply_lines}
use my_super_ledger.Ledger.Machine.Trial.{apply_line_inv}
use my_super_ledger.Ledger.Machine.Accept.{LineFits, LinesFit}

-- Every account stands under its own code and has a type.
abbrev pub KnownAccounts : Map ℕ Account → Type 0
KnownAccounts coa =
    (k : ℕ) (a : Account)
    → lookup k coa ≡ some a
    → (a.nominal_code ≡ k) × (a.account_type ≢ unknown)

debit_balance_ok :
    (t : AccountType) (b : Balance) (x : Amount)
    → t ≢ unknown
    → (b' : Balance) × (debit_balance t b x ≡ done b')
unfolding debit_balance
debit_balance_ok unknown b x h = absurd (h refl)
debit_balance_ok _ b x h = (_, refl)

credit_balance_ok :
    (t : AccountType) (b : Balance) (x : Amount)
    → t ≢ unknown
    → (b' : Balance) × (credit_balance t b x ≡ done b')
unfolding credit_balance
credit_balance_ok unknown b x h = absurd (h refl)
credit_balance_ok _ b x h = (_, refl)

apply_typed_ok :
    (t : TransactionType) (a : Account) (x : Amount)
    → t ≢ untyped
    → a.account_type ≢ unknown
    → (a' : Account) × (apply_typed t a x ≡ done a')
unfolding apply_typed
apply_typed_ok untyped a x h k = absurd (h refl)
apply_typed_ok debit a x h k =
    let (b, e) = debit_balance_ok a.account_type a.balance x k in (record a { balance = b }, rw e)
apply_typed_ok credit a x h k =
    let (b, e) = credit_balance_ok a.account_type a.balance x k in (record a { balance = b }, rw e)

apply_typed_frame :
    (t : TransactionType) (a a' : Account) (x : Amount)
    → apply_typed t a x ≡ done a'
    → (a'.account_type ≡ a.account_type)
      × (a'.iso4217_currency_code ≡ a.iso4217_currency_code)
      × (a'.nominal_code ≡ a.nominal_code)
unfolding apply_typed
apply_typed_frame untyped a a' x h = ground arith
apply_typed_frame debit a a' x h = ground arith
apply_typed_frame credit a a' x h = ground arith

-- `b` is `a` after some lines: only its balance may differ.
pub record SameFrame (a b : Account) : Type 0 where
  pub account_type : b.account_type ≡ a.account_type
  pub currency : b.iso4217_currency_code ≡ a.iso4217_currency_code
  pub nominal_code : b.nominal_code ≡ a.nominal_code

SameFrame-refl : (a : Account) → SameFrame a a
SameFrame-refl a = record { account_type = refl; currency = refl; nominal_code = refl }

-- The accounts of `m'` are those of `m`, with other balances.
pub record SameAccounts (m m' : Map ℕ Account) : Type 0 where
  pub back :
      (k : ℕ) (b : Account)
      → lookup k m' ≡ some b
      → (a : Account) × (lookup k m ≡ some a) × SameFrame a b
  pub forth :
      (k : ℕ) (a : Account)
      → lookup k m ≡ some a
      → (b : Account) × (lookup k m' ≡ some b) × SameFrame a b

insert-SameAccounts :
    (k : ℕ) (a a' : Account) (m : Map ℕ Account)
    → lookup k m ≡ some a
    → SameFrame a a'
    → SameAccounts m (insert k a' m)
insert-SameAccounts k a a' m found frame = record {
  back = λ j b h. elim (Bool-cases (k == j)) [
    | inl same ↦
        let e : k ≡ j = (==_iff k j).0 same in
        let written : a' ≡ b = some_injective (rw (lookup-insert, same) at h) in
        (a, rw (← e) found, subst (SameFrame a) written frame)
    | inr other ↦ (b, rw (lookup-insert, other) at h, SameFrame-refl b)
  ];
  forth = λ j b h. elim (Bool-cases (k == j)) [
    | inl same ↦
        let e : k ≡ j = (==_iff k j).0 same in
        let old : a ≡ b =
          some_injective (let h' : lookup k m ≡ some b = rw e h in sym found ∙ h') in
        (a', rw (lookup-insert, same), subst (λ c. SameFrame c a') old frame)
    | inr other ↦ (b, rw (lookup-insert, other) h, SameFrame-refl b)
  ];
}

SameFrame-trans : {a b c : Account} → SameFrame a b → SameFrame b c → SameFrame a c
SameFrame-trans p q = record {
  account_type = q.account_type ∙ p.account_type;
  currency = q.currency ∙ p.currency;
  nominal_code = q.nominal_code ∙ p.nominal_code;
}

SameAccounts-refl : (m : Map ℕ Account) → SameAccounts m m
SameAccounts-refl m = record {
  back = λ k b h. (b, h, SameFrame-refl b);
  forth = λ k a h. (a, h, SameFrame-refl a);
}

SameAccounts-trans :
    {m n o : Map ℕ Account} → SameAccounts m n → SameAccounts n o → SameAccounts m o
SameAccounts-trans p q = record {
  back = λ k c h.
      let (b, at_b, bc) = q.back k c h in
      let (a, at_a, ab) = p.back k b at_b in (a, at_a, SameFrame-trans ab bc);
  forth = λ k a h.
      let (b, at_b, ab) = p.forth k a h in
      let (c, at_c, bc) = q.forth k b at_b in (c, at_c, SameFrame-trans ab bc);
}

pub apply_line-SameAccounts :
    (l : JournalLine) (m m' : Map ℕ Account) → apply_line l m ≡ done m' → SameAccounts m m'
apply_line-SameAccounts l m m' h =
    let (a, a', found, typed, written) = apply_line_inv l m m' h in
    let (type, currency, code) = apply_typed_frame l.transaction_type a a' l.amount typed in
    subst (SameAccounts m) written (
      insert-SameAccounts l.nominal_code a a' m found
        (record { account_type = type; currency = currency; nominal_code = code }))

pub apply_lines-SameAccounts :
    (ls : List JournalLine) (m m' : Map ℕ Account) → apply_lines ls m ≡ done m' → SameAccounts m m'
unfolding apply_lines
apply_lines-SameAccounts [] m m' h = subst (SameAccounts m) (done-injective h) (SameAccounts-refl m)
apply_lines-SameAccounts (l ∷ ls) m m' h =
    let (n, first, rest) = >>=-eq-done (apply_line l m) (apply_lines ls) h in
    SameAccounts-trans (apply_line-SameAccounts l m n first) (apply_lines-SameAccounts ls n m' rest)

pub LineFits-SameAccounts :
    {m m' : Map ℕ Account} (l : JournalLine) → SameAccounts m m' → LineFits m l → LineFits m' l
LineFits-SameAccounts l same f =
    let (b, found, frame) = same.forth l.nominal_code f.account f.found in
    record {
      account = b;
      found = found;
      currency = frame.currency ∙ f.currency;
      typed = f.typed;
      version = f.version;
    }

LinesFit-SameAccounts :
    {m m' : Map ℕ Account} (ls : List JournalLine)
    → SameAccounts m m'
    → LinesFit m ls
    → LinesFit m' ls
LinesFit-SameAccounts [] same f = tt
LinesFit-SameAccounts (l ∷ ls) same f =
    (LineFits-SameAccounts l same f.0, LinesFit-SameAccounts ls same f.1)

pub KnownAccounts-SameAccounts :
    {m m' : Map ℕ Account} → SameAccounts m m' → KnownAccounts m → KnownAccounts m'
KnownAccounts-SameAccounts same known k b h =
    let (a, found, frame) = same.back k b h in
    let (code, type) = known k a found in
    (frame.nominal_code ∙ code, λ e. type (sym frame.account_type ∙ e))

apply_line_ok :
    (l : JournalLine) (m : Map ℕ Account)
    → LineFits m l
    → KnownAccounts m
    → (m' : Map ℕ Account) × (apply_line l m ≡ done m')
unfolding apply_line
apply_line_ok l m f known =
    let (a', typed) =
      apply_typed_ok l.transaction_type f.account l.amount f.typed
        (known l.nominal_code f.account f.found).1 in
    (insert l.nominal_code a' m, rw (f.found, typed))

pub apply_lines_ok :
    (ls : List JournalLine) (m : Map ℕ Account)
    → LinesFit m ls
    → KnownAccounts m
    → (m' : Map ℕ Account) × (apply_lines ls m ≡ done m')
unfolding apply_lines
apply_lines_ok [] m f known = (m, refl)
apply_lines_ok (l ∷ ls) m f known =
    let (n, first) = apply_line_ok l m f.0 known in
    let same = apply_line-SameAccounts l m n first in
    let (m', rest) =
      apply_lines_ok ls n (LinesFit-SameAccounts ls same f.1)
        (KnownAccounts-SameAccounts same known) in
    (m', rw first rest)
