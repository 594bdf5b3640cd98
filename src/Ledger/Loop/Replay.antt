-- ===== src/Ledger/Loop/Replay.antt =====
-- Replaying the events that the store keeps rebuilds the state of the state machine.
use mathlib.Core.Path.{subst, fun_ext}
use mathlib.Core.List.{append_assoc, append-nil}
use my_super_ledger.Prelude.{
  ℕ, String, Bool, ◌≡◌, refl, sym, ap, ◌∙◌, List, [], ◌∷◌, ◌++◌, Outcome, done, abort, ◌>>=◌,
  >>=-eq-done, done-injective,
}
use my_super_ledger.Ledger.Machine.Defs.{
  AppState, ProcessHint, Event, Command, apply_event, apply_events, process_and_apply,
}
use my_super_ledger.Ledger.Machine.Conserve.{process_and_apply_inv}
use my_super_ledger.Ledger.Loop.Defs.{Persisted, LoopState, persist, process_one, process_all}

-- The events of the store, in order.
abbrev pub stored_events : List Persisted → List Event
stored_events [] = []
stored_events (p ∷ ps) = p.events ++ stored_events ps

bind_assoc {ℓ κ μ} :
    {A : Type ℓ} {B : Type κ} {C : Type μ} (m : Outcome A) (f : A → Outcome B) (g : B → Outcome C)
    → (m >>= f >>= g) ≡ (m >>= λ a. f a >>= g)
bind_assoc (done a) f g = refl
bind_assoc abort f g = refl

apply_events-append :
    (xs ys : List Event) (s : AppState)
    → apply_events (xs ++ ys) s ≡ (apply_events xs s >>= apply_events ys)
unfolding apply_events
apply_events-append [] ys s = refl
apply_events-append (e ∷ xs) ys s =
    ap (λ f. apply_event e s >>= f) (fun_ext (apply_events-append xs ys))
    ∙ sym (bind_assoc (apply_event e s) (apply_events xs) (apply_events ys))

stored_events-append :
    (ps qs : List Persisted) → stored_events (ps ++ qs) ≡ stored_events ps ++ stored_events qs
stored_events-append [] qs = refl
stored_events-append (p ∷ ps) qs =
    rw (stored_events-append ps qs)
      (sym (append_assoc p.events (stored_events ps) (stored_events qs)))

-- The state of the machine is the replay of the store's events on the state `base`.
abbrev pub IsReplay : AppState → LoopState → Type 0
IsReplay base st = apply_events (stored_events st.store) base ≡ done st.app

persist-IsReplay :
    (base : AppState) (c : Command) (hint : ProcessHint) (es : List Event) (app : AppState)
    (st : LoopState)
    → IsReplay base st
    → apply_events es st.app ≡ done app
    → IsReplay base (persist c hint es app st)
unfolding persist
persist-IsReplay base c hint [] app st h a = rw (stored_events-append, apply_events-append, h) a
persist-IsReplay base c hint (e ∷ es) app st h a =
    rw (stored_events-append, apply_events-append, h, append-nil) a

-- What one round of the loop went through.
pub process_one_inv :
    (persisted : String → Bool) (now : ℕ) (c : Command) (st st' : LoopState)
    → process_one persisted now c st ≡ done st'
    → (hint : ProcessHint) × (es : List Event) × (app : AppState) × (process_and_apply persisted now
          c st.app
        ≡ done (hint, es, app))
      × (persist c hint es app st ≡ st')
unfolding process_one
process_one_inv persisted now c st st' h =
    let (r, processed, rest) = >>=-eq-done (process_and_apply persisted now c st.app) _ h in
    (r.0, r.1, r.2, processed, done-injective rest)

-- A condition on every command of a run.
abbrev pub AllCommands : (Command → Type 0) → List (ℕ × Command) → Type 0
AllCommands Q [] = Unit {0}
AllCommands Q ((_, c) ∷ rest) = Q c × AllCommands Q rest

module _ (Q : Command → Type 0) (P : LoopState → Type 0) (persisted : String → Bool)
    (step : (now : ℕ) (c : Command) (st st' : LoopState)
      → Q c
      → P st
      → process_one persisted now c st ≡ done st'
      → P st') where
  -- A property of the loop's state that one round keeps is kept by every run.
  pub process_all_keeps :
      (cs : List (ℕ × Command)) (st st' : LoopState)
      → AllCommands Q cs
      → P st
      → process_all persisted cs st ≡ done st'
      → P st'
  unfolding process_all
  process_all_keeps [] st st' q p h = subst P (done-injective h) p
  process_all_keeps ((now, c) ∷ rest) st st' q p h =
      let (n, first, others) =
        >>=-eq-done (process_one persisted now c st) (process_all persisted rest) h in
      process_all_keeps rest n st' q.1 (step now c st n q.0 p first) others

process_one-IsReplay :
    (base : AppState) (persisted : String → Bool) (now : ℕ) (c : Command) (st st' : LoopState)
    → IsReplay base st
    → process_one persisted now c st ≡ done st'
    → IsReplay base st'
process_one-IsReplay base persisted now c st st' r h =
    let (hint, es, app, processed, kept) = process_one_inv persisted now c st st' h in
    let (_, applied) = process_and_apply_inv persisted now c st.app hint es app processed in
    subst (IsReplay base) kept (persist-IsReplay base c hint es app st r applied)

abbrev pub Always : Command → Type 0
Always c = Unit {0}

pub Always-all : (cs : List (ℕ × Command)) → AllCommands Always cs
Always-all [] = tt
Always-all ((_, c) ∷ rest) = (tt, Always-all rest)

-- After any run of the loop, if the store's events replayed on `base` gave the machine's state
-- before the run, they do so after it, whatever commands were accepted or rejected.
pub replay_rebuilds :
    (base : AppState) (persisted : String → Bool) (cs : List (ℕ × Command)) (st st' : LoopState)
    → apply_events (stored_events st.store) base ≡ done st.app
    → process_all persisted cs st ≡ done st'
    → apply_events (stored_events st'.store) base ≡ done st'.app
replay_rebuilds base persisted cs st st' r h =
    process_all_keeps Always (IsReplay base) persisted
      (λ now c st₁ st₂ _ p h₁. process_one-IsReplay base persisted now c st₁ st₂ p h₁) cs st st'
      (Always-all cs) r h
