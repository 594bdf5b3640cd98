-- ===== src/Ledger/Machine/Trial.antt =====
-- The trial balance: the sums of the debit side and of the credit side of the chart of accounts,
-- modulo 2^64, and how recording a journal entry moves them.
use my_super_ledger.Prelude.{
  ℕ, ◌+◌, ◌%◌, ◌^◌, ◌≡◌, Option, none, some, List, [], ◌∷◌, done, Outcome-cases, >>=-eq-done,
  expect-eq-done, expect, nat_eq, string_eq, Map, lookup, insert, arith, inl, inr,
}
use my_super_ledger.Ledger.Domain.Kind.{
  AccountType, unknown, asset, liability, capital, income, cost_of_goods_sold, expense,
  TransactionType, untyped, debit, credit,
}
use my_super_ledger.Ledger.Domain.Money.{Amount, Balance, raise_balance, lower_balance}
use my_super_ledger.Ledger.Domain.Account.{Account, debit_balance, credit_balance}
use my_super_ledger.Ledger.Domain.Journal.{JournalLine, JournalEntry}
use my_super_ledger.Ledger.Machine.Defs.{
  ProcessHint, Event, journal_entry_recorded, Totals, Scan, reject, totals, check_line, scan_lines,
  conclude, apply_typed, apply_line, apply_lines,
}

-- What an account adds to the debit side: its balance, if a debit raises it.
abbrev pub debit_part : AccountType → ℕ → ℕ
debit_part asset v = v
debit_part capital v = v
debit_part cost_of_goods_sold v = v
debit_part expense v = v
debit_part income v = 0
debit_part liability v = 0
debit_part unknown v = 0

-- What it adds to the credit side: its balance, if a credit raises it.
abbrev pub credit_part : AccountType → ℕ → ℕ
credit_part income v = v
credit_part liability v = v
credit_part asset v = 0
credit_part capital v = 0
credit_part cost_of_goods_sold v = 0
credit_part expense v = 0
credit_part unknown v = 0

abbrev pub debit_side : Map ℕ Account → ℕ
debit_side [] = 0
debit_side ((_, a) ∷ rest) = debit_part a.account_type a.balance.value + debit_side rest

abbrev pub credit_side : Map ℕ Account → ℕ
credit_side [] = 0
credit_side ((_, a) ∷ rest) = credit_part a.account_type a.balance.value + credit_side rest

-- What a line debits and credits.
abbrev pub debited : TransactionType → ℕ → ℕ
debited debit v = v
debited credit v = 0
debited untyped v = 0

abbrev pub credited : TransactionType → ℕ → ℕ
credited credit v = v
credited debit v = 0
credited untyped v = 0

abbrev pub debits : List JournalLine → ℕ
debits [] = 0
debits (l ∷ rest) = debited l.transaction_type l.amount.value + debits rest

abbrev pub credits : List JournalLine → ℕ
credits [] = 0
credits (l ∷ rest) = credited l.transaction_type l.amount.value + credits rest

-- From `before` to `after` the debit side has gained, over the credit side, `d` less `c`.
abbrev pub Gains : Map ℕ Account → Map ℕ Account → ℕ → ℕ → Type 0
Gains before after d c =
    (debit_side after + credit_side before + c) % 2 ^ 64
    ≡ (debit_side before + credit_side after + d) % 2 ^ 64

debit_side-insert :
    (k : ℕ) (a old : Account) (m : Map ℕ Account)
    → lookup k m ≡ some old
    → debit_side (insert k a m) + debit_part old.account_type old.balance.value
      ≡ debit_side m + debit_part a.account_type a.balance.value
unfolding lookup insert
debit_side-insert k a old [] h = ground arith
debit_side-insert k a old ((j, w) ∷ m) h = ground (arith, debit_side-insert k a old m)

credit_side-insert :
    (k : ℕ) (a old : Account) (m : Map ℕ Account)
    → lookup k m ≡ some old
    → credit_side (insert k a m) + credit_part old.account_type old.balance.value
      ≡ credit_side m + credit_part a.account_type a.balance.value
unfolding lookup insert
credit_side-insert k a old [] h = ground arith
credit_side-insert k a old ((j, w) ∷ m) h = ground (arith, credit_side-insert k a old m)

-- One line at its account.
abbrev LineGains : Account → Account → ℕ → ℕ → Type 0
LineGains a a' d c =
    (debit_part a'.account_type a'.balance.value + credit_part a.account_type a.balance.value + c)
      % 2 ^ 64
    ≡ (debit_part a.account_type a.balance.value + credit_part a'.account_type a'.balance.value + d)
      % 2 ^ 64

debit_gains :
    (t : AccountType) (b b' : Balance) (x : Amount)
    → debit_balance t b x ≡ done b'
    → (debit_part t b'.value + credit_part t b.value) % 2 ^ 64
      ≡ (debit_part t b.value + credit_part t b'.value + x.value) % 2 ^ 64
unfolding debit_balance raise_balance lower_balance
debit_gains asset b b' x h = ground arith
debit_gains _ b b' x h = ground arith

credit_gains :
    (t : AccountType) (b b' : Balance) (x : Amount)
    → credit_balance t b x ≡ done b'
    → (debit_part t b'.value + credit_part t b.value + x.value) % 2 ^ 64
      ≡ (debit_part t b.value + credit_part t b'.value) % 2 ^ 64
unfolding credit_balance raise_balance lower_balance
credit_gains asset b b' x h = ground arith
credit_gains _ b b' x h = ground arith

account_gains :
    (t : TransactionType) (a a' : Account) (x : Amount)
    → apply_typed t a x ≡ done a'
    → LineGains a a' (debited t x.value) (credited t x.value)
unfolding apply_typed
account_gains untyped a a' x h = ground arith
account_gains debit a a' x h = elim (Outcome-cases (debit_balance a.account_type a.balance x)) [
  | inl e ↦ ground arith
  | inr (b, e) ↦ ground (arith, debit_gains a.account_type a.balance b x e)
]
account_gains credit a a' x h = elim (Outcome-cases (credit_balance a.account_type a.balance x)) [
  | inl e ↦ ground arith
  | inr (b, e) ↦ ground (arith, credit_gains a.account_type a.balance b x e)
]

-- What a line that was applied found, and what it wrote.
abbrev pub Applied : JournalLine → Map ℕ Account → Map ℕ Account → Type 0
Applied l m m' =
    (a : Account) × (a' : Account) × (lookup l.nominal_code m ≡ some a)
    × (apply_typed l.transaction_type a l.amount ≡ done a')
    × (insert l.nominal_code a' m ≡ m')

pub apply_line_inv :
    (l : JournalLine) (m m' : Map ℕ Account) → apply_line l m ≡ done m' → Applied l m m'
unfolding apply_line
apply_line_inv l m m' h =
    let (a, found, h₁) = >>=-eq-done (expect (lookup l.nominal_code m)) _ h in
    let (a', typed, h₂) = >>=-eq-done (apply_typed l.transaction_type a l.amount) _ h₁ in
    (a, a', expect-eq-done (lookup l.nominal_code m) found, typed, cc)

apply_line-Gains :
    (l : JournalLine) (m m' : Map ℕ Account)
    → apply_line l m ≡ done m'
    → Gains m m'
        (debited l.transaction_type l.amount.value)
        (credited l.transaction_type l.amount.value)
apply_line-Gains l m m' h =
    let (a, a', found, typed, written) = apply_line_inv l m m' h in
    rw (← written) (
      omega (
        arith,
        account_gains l.transaction_type a a' l.amount typed,
        debit_side-insert l.nominal_code a' a m found,
        credit_side-insert l.nominal_code a' a m found,
      ))

pub apply_lines-Gains :
    (ls : List JournalLine) (m m' : Map ℕ Account)
    → apply_lines ls m ≡ done m'
    → Gains m m' (debits ls) (credits ls)
unfolding apply_lines
apply_lines-Gains [] m m' h = ground arith
apply_lines-Gains (l ∷ ls) m m' h =
    let (n, first, rest) = >>=-eq-done (apply_line l m) (apply_lines ls) h in
    omega (arith, apply_line-Gains l m n first, apply_lines-Gains ls n m' rest)

-- The totals of the scan are the sums of the lines, modulo 2^64.
abbrev pub Sums : Totals → Totals → ℕ → ℕ → Type 0
Sums t t' d c =
    (t'.debit_sum.value % 2 ^ 64 ≡ (t.debit_sum.value + d) % 2 ^ 64)
    × (t'.credit_sum.value % 2 ^ 64 ≡ (t.credit_sum.value + c) % 2 ^ 64)

check_line-Sums :
    (o : Option Account) (l : JournalLine) (t t' : Totals)
    → check_line o l t ≡ done (totals t')
    → Sums t t'
        (debited l.transaction_type l.amount.value)
        (credited l.transaction_type l.amount.value)
unfolding check_line
check_line-Sums none l t t' h = cc
check_line-Sums (some a) l t t' h = ground arith

-- A scan that ends with totals went through the first line and then the others.
pub scan_lines_inv :
    (coa : Map ℕ Account) (l : JournalLine) (ls : List JournalLine) (t t' : Totals)
    → scan_lines coa (l ∷ ls) t ≡ done (totals t')
    → (n : Totals) × (check_line (lookup l.nominal_code coa) l t ≡ done (totals n))
      × (scan_lines coa ls n ≡ done (totals t'))
unfolding scan_lines
scan_lines_inv coa l ls t t' h =
    let (r, first, rest) = >>=-eq-done (check_line (lookup l.nominal_code coa) l t) _ h in
    go r first rest
  where
    go :
        (r : Scan)
        → check_line (lookup l.nominal_code coa) l t ≡ done r
        → (elim r [ reject hint ↦ done (reject hint) | totals n ↦ scan_lines coa ls n ])
          ≡ done (totals t')
        → (n : Totals) × (check_line (lookup l.nominal_code coa) l t ≡ done (totals n))
          × (scan_lines coa ls n ≡ done (totals t'))
    go (reject hint) first rest = cc
    go (totals n) first rest = (n, first, rest)

pub scan_lines-Sums :
    (coa : Map ℕ Account) (ls : List JournalLine) (t t' : Totals)
    → scan_lines coa ls t ≡ done (totals t')
    → Sums t t' (debits ls) (credits ls)
unfolding scan_lines
scan_lines-Sums coa [] t t' h = ground arith
scan_lines-Sums coa (l ∷ ls) t t' h =
    let (n, first, rest) = scan_lines_inv coa l ls t t' h in
    omega (
      arith,
      check_line-Sums (lookup l.nominal_code coa) l t n first,
      scan_lines-Sums coa ls n t' rest,
    )

-- An entry that is accepted has debits and credits that agree modulo 2^64.
pub conclude_balanced :
    (now : ℕ) (entry : JournalEntry) (t : Totals) (hint : ProcessHint) (e : Event) (es : List Event)
    → conclude now entry (totals t) ≡ (hint, e ∷ es)
    → (t.debit_sum.value ≡ t.credit_sum.value) × (e ∷ es ≡ journal_entry_recorded now entry ∷ [])
unfolding conclude
conclude_balanced now entry t hint e es h = ground arith
