-- ===== src/Ledger/Loop/Runs.antt =====
-- Whole runs of the loop: they end, they keep the books balanced, and no journal entry is recorded
-- twice.
use mathlib.Core.Path.{subst}
use my_super_ledger.Prelude.{
  ℕ, String, Bool, true, ◌≡◌, refl, sym, ap, ◌∙◌, some, List, [], ◌∷◌, done, >>=-eq-done, string_eq,
  contains, contains-insert, contains-insert_self, arith,
}
use my_super_ledger.Ledger.Domain.Journal.{JournalEntry}
use my_super_ledger.Ledger.Machine.Defs.{
  AppState, ProcessHint, text, Event, account_metadata_configured, account_created,
  journal_entry_recorded, Command, record_journal_entry, process_command, apply_event, apply_events,
  apply_journal, process_and_apply,
}
use my_super_ledger.Ledger.Machine.Accept.{accept_sound}
use my_super_ledger.Ledger.Machine.Total.{IsValid, WellFormed, machine_total}
use my_super_ledger.Ledger.Machine.Conserve.{
  Balanced, OpensAtZero, process_and_apply_inv, apply_journal_inv, command_Balanced,
}
use my_super_ledger.Ledger.Loop.Defs.{LoopState, persist, process_one, process_all}
use my_super_ledger.Ledger.Loop.Replay.{
  AllCommands, Always, Always-all, process_one_inv, process_all_keeps,
}

app-persist :
    (c : Command) (hint : ProcessHint) (es : List Event) (app : AppState) (st : LoopState)
    → (persist c hint es app st).app ≡ app
unfolding persist
app-persist c hint [] app st = refl
app-persist c hint (e ∷ es) app st = refl

process_one-IsValid :
    (persisted : String → Bool) (now : ℕ) (c : Command) (st : LoopState)
    → IsValid st.app
    → WellFormed c
    → (st' : LoopState) × (process_one persisted now c st ≡ done st') × IsValid st'.app
unfolding process_one
process_one-IsValid persisted now c st valid w =
    let (hint, es, app, processed, valid') = machine_total persisted now c st.app valid w in
    (
      persist c hint es app st,
      rw processed,
      subst IsValid (sym (app-persist c hint es app st)) valid',
    )

process_all-IsValid :
    (persisted : String → Bool) (cs : List (ℕ × Command)) (st : LoopState)
    → IsValid st.app
    → AllCommands WellFormed cs
    → (st' : LoopState) × (process_all persisted cs st ≡ done st') × IsValid st'.app
unfolding process_all
process_all-IsValid persisted [] st valid w = (st, refl, valid)
process_all-IsValid persisted ((now, c) ∷ rest) st valid w =
    let (n, first, valid₁) = process_one-IsValid persisted now c st valid w.0 in
    let (st', others, valid') = process_all-IsValid persisted rest n valid₁ w.1 in
    (st', rw first others, valid')

process_one-Balanced :
    (persisted : String → Bool) (now : ℕ) (c : Command) (st st' : LoopState)
    → OpensAtZero c
    → Balanced st.app
    → process_one persisted now c st ≡ done st'
    → Balanced st'.app
process_one-Balanced persisted now c st st' z b h =
    let (hint, es, app, processed, kept) = process_one_inv persisted now c st st' h in
    let same : app ≡ st'.app =
      sym (app-persist c hint es app st) ∙ ap (λ (x : LoopState). x.app) kept in
    subst Balanced same (command_Balanced persisted now c st.app hint es app z b processed)

-- A run of well-formed commands that open accounts at zero, from a valid and balanced state, comes
-- to its end, and the state there is valid and balanced.
pub run-Balanced :
    (persisted : String → Bool) (cs : List (ℕ × Command)) (st : LoopState)
    → IsValid st.app
    → Balanced st.app
    → AllCommands WellFormed cs
    → AllCommands OpensAtZero cs
    → (st' : LoopState) × (process_all persisted cs st ≡ done st')
      × IsValid st'.app
      × Balanced st'.app
run-Balanced persisted cs st valid b w z =
    let (st', ran, valid') = process_all-IsValid persisted cs st valid w in
    (
      st',
      ran,
      valid',
      process_all_keeps OpensAtZero (λ s. Balanced s.app) persisted (process_one-Balanced persisted)
          cs st st' z b ran,
    )

apply_event_keeps :
    (k : String) (e : Event) (s s' : AppState)
    → contains k s.done_map ≡ true
    → apply_event e s ≡ done s'
    → contains k s'.done_map ≡ true
unfolding apply_event
apply_event_keeps k (account_metadata_configured t m) s s' c h = ground arith
apply_event_keeps k (account_created t a) s s' c h = ground arith
apply_event_keeps k (journal_entry_recorded t e) s s' c h =
    rw (apply_journal_inv e s s' h).2 (rw contains-insert (ground arith))

apply_events_keeps :
    (k : String) (es : List Event) (s s' : AppState)
    → contains k s.done_map ≡ true
    → apply_events es s ≡ done s'
    → contains k s'.done_map ≡ true
unfolding apply_events
apply_events_keeps k [] s s' c h = ground arith
apply_events_keeps k (e ∷ es) s s' c h =
    let (n, first, rest) = >>=-eq-done (apply_event e s) (apply_events es) h in
    apply_events_keeps k es n s' (apply_event_keeps k e s n c first) rest

-- The reply to a journal entry whose id was recorded before.
abbrev pub already_processed : ProcessHint
already_processed = record {
  code = 1003;
  message = text "journal entry has already been processed";
}

recorded_rejected :
    (persisted : String → Bool) (now : ℕ) (entry : JournalEntry) (s : AppState)
    → contains entry.id s.done_map ≡ true
    → process_and_apply persisted now (record_journal_entry (some entry)) s
      ≡ done (already_processed, [], s)
unfolding process_and_apply
recorded_rejected persisted now entry s h = rw h

accepted_recorded :
    (persisted : String → Bool) (now : ℕ) (entry : JournalEntry) (s : AppState) (hint : ProcessHint)
    (e : Event) (es : List Event) (s' : AppState)
    → process_and_apply persisted now (record_journal_entry (some entry)) s
      ≡ done (hint, e ∷ es, s')
    → contains entry.id s'.done_map ≡ true
unfolding process_command apply_events
accepted_recorded persisted now entry s hint e es s' h =
    let (p, a) =
      process_and_apply_inv persisted now (record_journal_entry (some entry)) s hint (e ∷ es) s'
        h in
    let (_, _, same) = accept_sound persisted now entry s hint e es p in
    let (s₁, journaled, rest) =
      >>=-eq-done (apply_journal entry s) (apply_events [])
        (subst (λ es₁. apply_events es₁ s ≡ done s') same a) in
    rw (apply_journal_inv entry s s' (journaled ∙ rest)).2
      (contains-insert_self entry.id entry.valid_time s.done_map)

process_one-keeps_done :
    (k : String) (persisted : String → Bool) (now : ℕ) (c : Command) (st st' : LoopState)
    → Unit {0}
    → contains k st.app.done_map ≡ true
    → process_one persisted now c st ≡ done st'
    → contains k st'.app.done_map ≡ true
process_one-keeps_done k persisted now c st st' _ d h =
    let (hint, es, app, processed, kept) = process_one_inv persisted now c st st' h in
    let (_, applied) = process_and_apply_inv persisted now c st.app hint es app processed in
    let same : app ≡ st'.app =
      sym (app-persist c hint es app st) ∙ ap (λ (x : LoopState). x.app) kept in
    subst (λ (x : AppState). contains k x.done_map ≡ true) same
      (apply_events_keeps k es st.app app d applied)

-- Once a journal entry is accepted, then after any further run every entry with its id is answered
-- with code 1003, gives no event and changes nothing.
pub recorded_once :
    (persisted : String → Bool) (now : ℕ) (entry : JournalEntry) (s : AppState) (hint : ProcessHint)
    (e : Event) (es : List Event) (cs : List (ℕ × Command)) (st st' : LoopState) (later : ℕ)
    (again : JournalEntry)
    → process_and_apply persisted now (record_journal_entry (some entry)) s
      ≡ done (hint, e ∷ es, st.app)
    → process_all persisted cs st ≡ done st'
    → again.id ≡ entry.id
    → process_and_apply persisted later (record_journal_entry (some again)) st'.app
      ≡ done (already_processed, [], st'.app)
recorded_once persisted now entry s hint e es cs st st' later again accepted ran same =
    recorded_rejected persisted later again st'.app (
      rw same (
        process_all_keeps Always (λ x. contains entry.id x.app.done_map ≡ true) persisted
          (process_one-keeps_done entry.id persisted) cs st st' (Always-all cs)
          (accepted_recorded persisted now entry s hint e es st.app accepted) ran))
