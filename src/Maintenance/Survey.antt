-- ===== src/Maintenance/Survey.antt =====
-- The surveys of `maintain` and the cleaning up after them, and what they leave in the log.
use git_vws.Effect.{
  ◌>>=◌, note_ok, noted_ok, embedded, Holds, Ensures, bind, seq, lifted, pured, branch, weaken,
}
use git_vws.Session.Host.{Event, Host}
use git_vws.Template.Store.{Store, TemplateEvent}
use git_vws.Template.Census
use git_vws.Template.Keeps
use git_vws.Maintenance.Report.{MaintenanceReport, MaintenanceEntry, recovery, merge_maintenance}
use git_vws.Maintenance.Sessions
use git_vws.Maintenance.Sessions.{Sweep, SessionCensus}
use git_vws.Maintenance.Collect as SessionCollect
use git_vws.Maintenance.Output
use git_vws.Maintenance.Output.{Console}
use git_vws.Maintenance.Quiet
use git_vws.Maintenance.Careful.{
  On, Quiets, Careful, Cleared, surveys, pures, silents, caughts, embeds, embeds_any,
}
use git_vws.Maintenance.Run
use git_vws.Maintenance.Run.{
  Survey, of_sessions, of_templates, MaintenanceEvent, in_sessions, in_templates, printed, surveyed,
  State,
}
use git_vws.Base.{
  ◌≡◌, refl, ap, ◌∙◌, Bool, true, false, ◌&&◌, ◌||◌, not, List, [], ◌∷◌, ◌++◌, map, if◌then◌else◌,
  nat_Eq, string_Eq, bytes_Eq, option_bytes_Eq, option_nat_Eq, Bytes, codes, Result, ok, err,
}

-- What holds once the surveys `l` are made.
abbrev pub After : Bool → List (Survey × Bool) → List MaintenanceEvent → Type 0
After cleanup l log = (surveys log ≡ l) × Careful cleanup log

module _ {W : Type 0} (c : Console W) (cleanup : Bool) where
  printed_run :
      (bytes : Bytes) (x : Result (Unit {0}) × W) (log : List MaintenanceEvent)
      → Careful cleanup log
      → Holds (λ _. On (Careful cleanup)) (On (Careful cleanup)) (noted_ok (printed bytes) log x)
  unfolding Careful
  printed_run bytes (ok u, w) log p = p
  printed_run bytes (err e, w) log p = p

  prints : (json : Result Bytes) → Quiets (Careful cleanup) (Output.print printed c json)
  unfolding Output.print note_ok
  prints json = bind (lifted json (λ a w e p. p) (λ w p. p)) λ bytes. record {
    run = λ w p.
        printed_run (bytes ++ (10 ∷ [])) (c.write_all (bytes ++ (10 ∷ [])) w.outside) w.log p;
  }

  prints_lines :
      (entries : List MaintenanceEntry)
      → Quiets (Careful cleanup) (Output.print_lines printed c entries)
  unfolding Output.print_lines
  prints_lines [] = pures (Careful cleanup) tt
  prints_lines (e ∷ es) = seq (prints _) (prints_lines es)

  writes :
      (report : MaintenanceReport)
      → Quiets (Careful cleanup) (Output.write_maintenance printed c report)
  unfolding Output.write_maintenance
  writes report = seq (prints_lines _) (seq (prints _) (silents (Careful cleanup) c.flush))

module _ {W Plan : Type 0} (h : Host W) (t : Sweep W Plan) (s : Store W) (r : State W)
    (c : Console W) (cleanup : Bool) where
  finishes :
      (report : MaintenanceReport)
      → Quiets (Careful cleanup) (Run.finish_maintenance h t s r c cleanup report)
  unfolding Run.finish_maintenance
  finishes report = seq (writes c cleanup report) (lifted _ (λ a w e p. p) (λ w p. p))

  -- From any survey on, only the printing is left.
  pub ends :
      (l : List (Survey × Bool)) (report : MaintenanceReport)
      → Ensures
          (On (After cleanup l))
          (Run.finish_maintenance h t s r c cleanup report)
          (λ _. On (Careful cleanup))
          (On (Careful cleanup))
  ends l report = weaken (λ w p. p.1) (λ a w p. p) (λ w p. p) (finishes report)

  abbrev Clear : List MaintenanceEvent → Type 0
  Clear = After cleanup ((of_templates, false) ∷ (of_sessions, false) ∷ [])

  adds_sessions :
      cleanup ≡ true
      → (log : List MaintenanceEvent) → Clear log
      → (events : List Event) → Clear (map in_sessions events ++ log)
  unfolding Careful Cleared surveys
  adds_sessions e log p [] = p
  adds_sessions e log p (x ∷ xs) =
      let rest = adds_sessions e log p xs in (rest.0, (λ q. (e, rest.0), rest.1))

  adds_templates :
      cleanup ≡ true
      → (log : List MaintenanceEvent) → Clear log
      → (events : List TemplateEvent) → Clear (map in_templates events ++ log)
  unfolding Careful Cleared surveys
  adds_templates e log p [] = p
  adds_templates e log p (x ∷ xs) =
      let rest = adds_templates e log p xs in (rest.0, (λ q. (e, rest.0), rest.1))

  cleans_up :
      (census : SessionCensus Plan) (report : MaintenanceReport)
      → cleanup ≡ true
      → Ensures
          (On Clear)
          (Run.clean_up h t s r c cleanup census report)
          (λ _. On (Careful cleanup))
          (On (Careful cleanup))
  unfolding Run.clean_up
  cleans_up census report e =
      bind
        (weaken (λ w p. p) (λ a w p. p) (λ w p. p.1)
          (caughts Clear (embeds_any Clear in_templates _ (adds_templates e))))
        λ collected. collected_case collected
    where
      collected_case :
          (collected : Result MaintenanceReport)
          → Ensures
              (On Clear)
              (elim collected [
                | err e ↦
                    Run.finish_maintenance h t s r c cleanup
                      (recovery report (codes "template") [] [] (codes "CORRUPT"))
                | ok templates ↦
                    let merged = merge_maintenance report templates in
                    if merged.recovery_required
                    then Run.finish_maintenance h t s r c cleanup merged
                    else (embedded in_sessions (SessionCollect.gc_sessions h t census)
                        >>= λ sessions.
                            Run.finish_maintenance h t s r c cleanup
                              (merge_maintenance merged sessions))
              ])
              (λ _. On (Careful cleanup))
              (On (Careful cleanup))
      collected_case (err x) = ends _ _
      collected_case (ok templates) =
          branch (merge_maintenance report templates).recovery_required
            (λ q.
              ends ((of_templates, false) ∷ (of_sessions, false) ∷ [])
                (merge_maintenance report templates))
            (λ q.
              bind
                (weaken (λ w p. p) (λ a w p. p) (λ w p. p.1)
                  (embeds_any Clear in_sessions (SessionCollect.gc_sessions h t census)
                    (adds_sessions e)))
                λ sessions.
                  ends ((of_templates, false) ∷ (of_sessions, false) ∷ [])
                    (merge_maintenance (merge_maintenance report templates) sessions))

  notes :
      (l : List (Survey × Bool)) (of : Survey) (report : MaintenanceReport)
      → Ensures
          (On (After cleanup l))
          (Run.noting h t s r c of report)
          (λ _. On (After cleanup ((of, report.recovery_required) ∷ l)))
          (On (Careful cleanup))
  unfolding Run.noting note_ok Careful surveys
  notes l of report = record {
    run = λ w p. (ap (λ x. (of, report.recovery_required) ∷ x) p.0, p.1);
  }

  -- What the test before the cleaning up has found where it lets it go on.
  goes_on :
      (b d e f : Bool) → (not b || d || e || f) ≡ false → (b ≡ true) × (d ≡ false) × (e ≡ false)
  goes_on true false false f q = (refl, refl, refl)
  goes_on true true e f q = absurd (cc)
  goes_on true false true f q = absurd (cc)
  goes_on false d e f q = absurd (cc)

  surveyed_templates :
      (census : SessionCensus Plan) (report templates : MaintenanceReport)
      → Ensures
          (On (After cleanup ((of_sessions, census.report.recovery_required) ∷ [])))
          (Run.templates_surveyed h t s r c cleanup census report templates)
          (λ _. On (Careful cleanup))
          (On (Careful cleanup))
  unfolding Run.templates_surveyed
  surveyed_templates census report templates =
      let merged =
        Run.merged_unless h t s r c (cleanup && not templates.recovery_required) report templates in
      seq (notes _ of_templates templates) (
        branch
          (not cleanup
            || census.report.recovery_required
            || templates.recovery_required
            || merged.recovery_required)
          (λ q.
            ends
              ((of_templates, templates.recovery_required)
                ∷ (of_sessions, census.report.recovery_required)
                ∷ [])
              merged)
          (λ q.
            let found =
              goes_on cleanup census.report.recovery_required templates.recovery_required
                merged.recovery_required q in
            weaken
              (λ w p. (
                p.0
                    ∙ ap
                        (λ x.
                          (of_templates, x) ∷ (of_sessions, census.report.recovery_required) ∷ [])
                        found.2
                    ∙ ap (λ x. (of_templates, false) ∷ (of_sessions, x) ∷ []) found.1,
                p.1,
              ))
              (λ a w p. p) (λ w p. p) (cleans_up census merged found.0)))

  doctors : Ensures (λ v. v.log ≡ []) (Census.doctor s) (λ _ v. v.log ≡ []) (λ v. v.log ≡ [])
  unfolding Census.doctor
  doctors =
      bind (Keeps.counts s (λ log. log ≡ []) (λ log. log ≡ []) (λ log p. p) true)
        λ census. pured census.report (λ w p. p)

  surveys_templates :
      (census : SessionCensus Plan) (report : MaintenanceReport)
      → Ensures
          (On (After cleanup ((of_sessions, census.report.recovery_required) ∷ [])))
          (Run.survey_templates h t s r c cleanup census report)
          (λ _. On (Careful cleanup))
          (On (Careful cleanup))
  unfolding Run.survey_templates
  surveys_templates census report =
      bind
        (weaken (λ w p. p) (λ a w p. p) (λ w p. p.1)
          (caughts (After cleanup ((of_sessions, census.report.recovery_required) ∷ [])) (
            embeds (After cleanup ((of_sessions, census.report.recovery_required) ∷ []))
              in_templates (Census.doctor s) doctors)))
        λ found. found_case found
    where
      found_case :
          (found : Result MaintenanceReport)
          → Ensures
              (On (After cleanup ((of_sessions, census.report.recovery_required) ∷ [])))
              (elim found [
                | err e ↦
                    Run.finish_maintenance h t s r c cleanup
                      (recovery report (codes "template") [] [] (codes "CORRUPT"))
                | ok templates ↦ Run.templates_surveyed h t s r c cleanup census report templates
              ])
              (λ _. On (Careful cleanup))
              (On (Careful cleanup))
      found_case (err x) = ends _ _
      found_case (ok templates) = surveyed_templates census report templates

  surveyed_sessions :
      (report : MaintenanceReport) (census : SessionCensus Plan)
      → Ensures
          (On (After cleanup []))
          (Run.sessions_surveyed h t s r c cleanup report census)
          (λ _. On (Careful cleanup))
          (On (Careful cleanup))
  unfolding Run.sessions_surveyed
  surveyed_sessions report census =
      seq (notes _ of_sessions census.report) (surveys_templates census _)

  pub surveys_all :
      (report : MaintenanceReport)
      → Ensures
          (On (After cleanup []))
          (Run.survey h t s r c cleanup report)
          (λ _. On (Careful cleanup))
          (On (Careful cleanup))
  unfolding Run.survey
  surveys_all report =
      bind
        (weaken (λ w p. p) (λ a w p. p) (λ w p. p.1)
          (caughts (After cleanup []) (
            embeds (After cleanup []) in_sessions (Sessions.session_census h t (not cleanup))
              (Quiet.surveys_sessions h t (λ log. log ≡ []) (not cleanup)))))
        λ counted. counted_case counted
    where
      counted_case :
          (counted : Result (SessionCensus Plan))
          → Ensures
              (On (After cleanup []))
              (elim counted [
                | err e ↦
                    Run.finish_maintenance h t s r c cleanup
                      (recovery report (codes "session") [] [] (codes "CORRUPT"))
                | ok census ↦ Run.sessions_surveyed h t s r c cleanup report census
              ])
              (λ _. On (Careful cleanup))
              (On (Careful cleanup))
      counted_case (err x) = ends _ _
      counted_case (ok census) = surveyed_sessions report census
