-- ===== src/Maintenance/Careful.antt =====
-- What `doctor` and `gc` change and when: nothing before both surveys have been made, and nothing
-- where one of them asks for recovery.
use git_vws.Effect
use git_vws.Effect.{
  World, M, ◌>>=◌, lift, pure, silent, note_ok, noted_ok, caught, embedded, bare, Holds, Ensures,
  bind, seq, lifted, pured, given, branch, weaken, catching,
}
use git_vws.Session.Host.{Event, ran, wrote, removed, executed, loose_collected, destroyed}
use git_vws.Template.Store.{TemplateEvent, counted, cleaned}
use git_vws.Maintenance.Run.{
  Survey, of_sessions, of_templates, MaintenanceEvent, in_sessions, in_templates, printed, surveyed,
}
use git_vws.Base.{
  ◌≡◌, refl, sym, subst, Bool, true, false, List, [], ◌∷◌, ◌++◌, map, nat_Eq, string_Eq, bytes_Eq,
  option_bytes_Eq, option_nat_Eq, Result, ok, err,
}

abbrev pub On : {W : Type 0} → (List MaintenanceEvent → Type 0) → World W MaintenanceEvent → Type 0
On P w = P w.log

-- Whether an event is more than a question.
unfoldable pub changes_sessions : Event → Bool
changes_sessions (ran inv) = false
changes_sessions (wrote r) = true
changes_sessions (removed name) = true
changes_sessions (executed name args) = true
changes_sessions (loose_collected name) = true
changes_sessions (destroyed name) = true

unfoldable pub changes_templates : TemplateEvent → Bool
changes_templates (counted keys) = false
changes_templates (TemplateEvent.wrote r) = true
changes_templates (TemplateEvent.destroyed r) = true
changes_templates (TemplateEvent.removed r) = true
changes_templates (cleaned name) = true

-- The surveys in a log, newest first: of which component each is, and whether it asks for recovery.
unfoldable pub surveys : List MaintenanceEvent → List (Survey × Bool)
surveys [] = []
surveys (surveyed of b ∷ log) = (of, b) ∷ surveys log
surveys (in_sessions e ∷ log) = surveys log
surveys (in_templates e ∷ log) = surveys log
surveys (printed bytes ∷ log) = surveys log

-- The run is to clean up, and the sessions and then the templates have been surveyed, each once, and
-- neither survey asks for recovery.
unfoldable pub Cleared : Bool → List MaintenanceEvent → Type 0
Cleared cleanup log =
    (cleanup ≡ true) × (surveys log ≡ (of_templates, false) ∷ (of_sessions, false) ∷ [])

-- Each change in the log was made when the run was cleared for it.
unfoldable pub Careful : Bool → List MaintenanceEvent → Type 0
unfolding Cleared
Careful cleanup [] = Unit {0}
Careful cleanup (surveyed of b ∷ log) = Careful cleanup log
Careful cleanup (printed bytes ∷ log) = Careful cleanup log
Careful cleanup (in_sessions e ∷ log) =
    (changes_sessions e ≡ true → Cleared cleanup log) × Careful cleanup log
Careful cleanup (in_templates e ∷ log) =
    (changes_templates e ≡ true → Cleared cleanup log) × Careful cleanup log

abbrev pub Quiets :
    {W A : Type 0} → (List MaintenanceEvent → Type 0) → M W MaintenanceEvent A → Type 0
Quiets P m = Ensures (On P) m (λ _. On P) (On P)

module _ {W : Type 0} (P : List MaintenanceEvent → Type 0) where
  pub pures : {A : Type 0} (a : A) → Quiets {W = W} P (pure a)
  pures a = pured a (λ w p. p)

  pub silent_run :
      {A : Type 0} (x : Result A × W) (log : List MaintenanceEvent)
      → P log
      → Holds (λ _. On P) (On P) (x.0, record { outside = x.1; log = log })
  silent_run (ok a, w) log p = p
  silent_run (err e, w) log p = p

  pub silents : {A : Type 0} (op : W → Result A × W) → Quiets P (silent op)
  unfolding silent
  silents op = record { run = λ w p. silent_run (op w.outside) w.log p }

  both :
      {A : Type 0} (r : Result A) (w : World W MaintenanceEvent)
      → Effect.Caught (λ _. On P) (On P) (On P) r w
      → P w.log
  unfolding Effect.Caught
  both (ok a) w q = q
  both (err e) w q = q

  pub caughts : {A : Type 0} {m : M W MaintenanceEvent A} → Quiets P m → Quiets P (caught m)
  caughts h = weaken (λ w p. p) both (λ w p. p) (catching (λ _. On P) (On P) (On P) h)

  -- A computation with a log of its own that leaves nothing in it.
  embedded_run :
      {Inner A : Type 0} (f : Inner → MaintenanceEvent) (log : List MaintenanceEvent)
      (x : Result A × World W Inner)
      → P log
      → Holds (λ _ v. v.log ≡ []) (λ v. v.log ≡ []) x
      → Holds (λ _. On P) (On P) (Effect.joined f log x)
  unfolding Effect.joined
  embedded_run f log (ok a, v) p q = subst (λ l. P (map f l ++ log)) (sym q) p
  embedded_run f log (err e, v) p q = subst (λ l. P (map f l ++ log)) (sym q) p

  pub embeds :
      {Inner A : Type 0} (f : Inner → MaintenanceEvent) (m : M W Inner A)
      → Ensures (λ v. v.log ≡ []) m (λ _ v. v.log ≡ []) (λ v. v.log ≡ [])
      → Quiets P (embedded f m)
  unfolding embedded
  embeds f m h = record {
    run = λ w p.
        embedded_run f w.log (m (record { outside = w.outside; log = [] })) p
          (h.run (record { outside = w.outside; log = [] }) refl);
  }

  -- One that may leave anything.
  joined_run :
      {Inner A : Type 0} (f : Inner → MaintenanceEvent) (log : List MaintenanceEvent)
      (x : Result A × World W Inner)
      → ((events : List Inner) → P (map f events ++ log))
      → Holds (λ _. On P) (On P) (Effect.joined f log x)
  unfolding Effect.joined
  joined_run f log (ok a, v) add = add v.log
  joined_run f log (err e, v) add = add v.log

  pub embeds_any :
      {Inner A : Type 0} (f : Inner → MaintenanceEvent) (m : M W Inner A)
      → ((log : List MaintenanceEvent) → P log → (events : List Inner) → P (map f events ++ log))
      → Quiets P (embedded f m)
  unfolding embedded
  embeds_any f m add = record {
    run = λ w p. joined_run f w.log (m (record { outside = w.outside; log = [] })) (add w.log p);
  }
