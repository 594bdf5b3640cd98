-- ===== src/Ledger/Machine/Conserve.antt =====
-- Recording journal entries keeps the trial balance, and so does every run of commands that opens
-- accounts at zero.
use mathlib.Core.Path.{subst}
use my_super_ledger.Prelude.{
  ℕ, ◌+◌, ◌%◌, ◌^◌, String, Bool, false, ◌≡◌, ap, sym, ◌∙◌, inl, inr, Option, none, some, List, [],
  ◌∷◌, done, >>=-eq-done, done-injective, nat_eq, string_eq, Map, insert, contains, arith,
  Bool-cases,
}
use my_super_ledger.Ledger.Domain.Kind.{AccountType, asset}
use my_super_ledger.Ledger.Domain.Account.{Account, AccountMetadata}
use my_super_ledger.Ledger.Domain.Journal.{JournalEntry}
use my_super_ledger.Ledger.Machine.Defs.{
  AppState, ProcessHint, Event, Command, configure_account_metadata, create_account,
  record_journal_entry, Processed, process_journal, process_create, process_configure,
  process_command, apply_lines, apply_journal, apply_created, apply_events, process_and_apply,
  range_overlaps, uncovered_account,
}
use my_super_ledger.Ledger.Machine.Trial.{
  debit_part, credit_part, debit_side, credit_side, Gains, apply_lines-Gains,
}
use my_super_ledger.Ledger.Machine.Accept.{accept_sound}

-- The debit side and the credit side agree, modulo 2^64.
abbrev pub Balanced : AppState → Type 0
Balanced s = debit_side s.coa % 2 ^ 64 ≡ credit_side s.coa % 2 ^ 64

-- What `process_and_apply` went through.
pub process_and_apply_inv :
    (persisted : String → Bool) (now : ℕ) (c : Command) (s : AppState) (hint : ProcessHint)
    (es : List Event) (s' : AppState)
    → process_and_apply persisted now c s ≡ done (hint, es, s')
    → (process_command persisted now c s ≡ done (hint, es)) × (apply_events es s ≡ done s')
unfolding process_and_apply
process_and_apply_inv persisted now c s hint es s' h =
    let (p, processed, h₁) = >>=-eq-done (process_command persisted now c s) _ h in
    let (s₁, applied, h₂) = >>=-eq-done (apply_events p.1 s) _ h₁ in
    let same_hint : p.0 ≡ hint = cc in
    let same_events : p.1 ≡ es = cc in let same_state : s₁ ≡ s' = cc in (cc, cc)

pub apply_journal_inv :
    (entry : JournalEntry) (s s' : AppState)
    → apply_journal entry s ≡ done s'
    → (contains entry.id s.done_map ≡ false)
      × (apply_lines entry.journal_lines s.coa ≡ done s'.coa)
      × (s'.done_map ≡ insert entry.id entry.valid_time s.done_map)
unfolding apply_journal
apply_journal_inv entry s s' h = (ground arith, ground arith, ground arith)

debit_side-insert_new :
    (k : ℕ) (a : Account) (m : Map ℕ Account)
    → contains k m ≡ false
    → debit_side (insert k a m) ≡ debit_side m + debit_part a.account_type a.balance.value
unfolding contains insert
debit_side-insert_new k a [] h = ground arith
debit_side-insert_new k a ((j, w) ∷ m) h = ground (arith, debit_side-insert_new k a m)

credit_side-insert_new :
    (k : ℕ) (a : Account) (m : Map ℕ Account)
    → contains k m ≡ false
    → credit_side (insert k a m) ≡ credit_side m + credit_part a.account_type a.balance.value
unfolding contains insert
credit_side-insert_new k a [] h = ground arith
credit_side-insert_new k a ((j, w) ∷ m) h = ground (arith, credit_side-insert_new k a m)

journal-Gains :
    (persisted : String → Bool) (now : ℕ) (entry : JournalEntry) (s : AppState) (hint : ProcessHint)
    (es : List Event) (s' : AppState)
    → process_journal persisted now (some entry) s ≡ done (hint, es)
    → apply_events es s ≡ done s'
    → Gains s.coa s'.coa 0 0
unfolding apply_events
journal-Gains persisted now entry s hint [] s' p a = rw (done-injective a)
journal-Gains persisted now entry s hint (e ∷ es) s' p a =
    let (ok, _, same) = accept_sound persisted now entry s hint e es p in
    let (s₁, journaled, rest) =
      >>=-eq-done (apply_journal entry s) (apply_events [])
        (subst (λ es₁. apply_events es₁ s ≡ done s') same a) in
    let applied = (apply_journal_inv entry s s' (journaled ∙ rest)).1 in
    omega (arith, apply_lines-Gains entry.journal_lines s.coa s'.coa applied, ok.balanced)

-- A journal entry, accepted or not, leaves the debit side less the credit side as it was, modulo
-- 2^64.
pub journal_conserves :
    (persisted : String → Bool) (now : ℕ) (entry : JournalEntry) (s : AppState) (hint : ProcessHint)
    (es : List Event) (s' : AppState)
    → process_and_apply persisted now (record_journal_entry (some entry)) s ≡ done (hint, es, s')
    → (debit_side s'.coa + credit_side s.coa) % 2 ^ 64
      ≡ (debit_side s.coa + credit_side s'.coa) % 2 ^ 64
journal_conserves persisted now entry s hint es s' h =
    let (p, a) =
      process_and_apply_inv persisted now (record_journal_entry (some entry)) s hint es s' h in
    omega (arith, journal-Gains persisted now entry s hint es s' (unfold process_command in p) a)

-- An account that is created starts with an empty balance.
abbrev pub OpensAtZero : Command → Type 0
OpensAtZero (create_account (some a)) = a.balance.value ≡ 0
OpensAtZero (create_account none) = Unit {0}
OpensAtZero (configure_account_metadata m) = Unit {0}
OpensAtZero (record_journal_entry e) = Unit {0}

apply_created_inv :
    (a : Account) (s s' : AppState)
    → apply_created a s ≡ done s'
    → (contains a.nominal_code s.coa ≡ false) × (insert a.nominal_code a s.coa ≡ s'.coa)
unfolding apply_created
apply_created_inv a s s' h = (ground arith, ground arith)

parts_zero : (t : AccountType) (v : ℕ) → v ≡ 0 → (debit_part t v ≡ 0) × (credit_part t v ≡ 0)
parts_zero asset v h = ground arith
parts_zero _ v h = ground arith

created_Balanced :
    (now : ℕ) (o : Option Account) (s s' : AppState)
    → OpensAtZero (create_account o)
    → Balanced s
    → apply_events (process_create now o s).1 s ≡ done s'
    → Balanced s'
unfolding process_create apply_events
created_Balanced now none s s' z b h = subst Balanced (done-injective h) b
created_Balanced now (some a) s s' z b h = elim (Bool-cases (contains a.nominal_code s.coa)) [
  | inl old ↦ subst Balanced (done-injective (rw old at h)) b
  | inr new ↦
      let (s₁, created, rest) = >>=-eq-done (apply_created a s) (apply_events []) (rw new at h) in
      let (_, written) = apply_created_inv a s s' (created ∙ rest) in
      rw (← written) (
        omega (
          arith,
          debit_side-insert_new a.nominal_code a s.coa new,
          credit_side-insert_new a.nominal_code a s.coa new,
          parts_zero a.account_type a.balance.value z,
        ))
]

configured_Balanced :
    (now : ℕ) (o : Option AccountMetadata) (s s' : AppState)
    → Balanced s
    → apply_events (process_configure now o s).1 s ≡ done s'
    → Balanced s'
unfolding process_configure apply_events
configured_Balanced now none s s' b h = subst Balanced (done-injective h) b
configured_Balanced now (some m) s s' b h =
    elim (Bool-cases (range_overlaps m s.account_metadata)) [
      | inl bad ↦ subst Balanced (done-injective (rw bad at h)) b
      | inr fine ↦ elim (Bool-cases (uncovered_account m s.coa)) [
        | inl bad ↦ subst Balanced (done-injective (rw (fine, bad) at h)) b
        | inr covered ↦ subst Balanced (done-injective (rw (fine, covered) at h)) b
      ]
    ]

-- Every command that opens accounts at zero only keeps debit side and credit side equal, modulo
-- 2^64.
pub command_Balanced :
    (persisted : String → Bool) (now : ℕ) (c : Command) (s : AppState) (hint : ProcessHint)
    (es : List Event) (s' : AppState)
    → OpensAtZero c
    → Balanced s
    → process_and_apply persisted now c s ≡ done (hint, es, s')
    → Balanced s'
unfolding process_command
command_Balanced persisted now (create_account o) s hint es s' z b h =
    let (p, a) = process_and_apply_inv persisted now (create_account o) s hint es s' h in
    let same = done-injective p in
    created_Balanced now o s s' z b (
      subst (λ (x : List Event). apply_events x s ≡ done s')
        (sym (ap (λ (x : Processed). x.1) same)) a)
command_Balanced persisted now (configure_account_metadata o) s hint es s' z b h =
    let (p, a) =
      process_and_apply_inv persisted now (configure_account_metadata o) s hint es s' h in
    let same = done-injective p in
    configured_Balanced now o s s' b (
      subst (λ (x : List Event). apply_events x s ≡ done s')
        (sym (ap (λ (x : Processed). x.1) same)) a)
command_Balanced persisted now (record_journal_entry none) s hint es s' z b h =
    absurd (unfold process_and_apply in ground arith)
command_Balanced persisted now (record_journal_entry (some entry)) s hint es s' z b h =
    omega (arith, journal_conserves persisted now entry s hint es s' h)
