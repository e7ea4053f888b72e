-- ===== src/Maintenance/Printing.antt =====
-- What `write_maintenance` prints: a line for each entry, in the order of their words, and the summary.
use mathlib.Core.List.{Perm}
use git_vws.Effect.{
  World, silent, note_ok, noted_ok, Holds, Ensures, bind, seq, lifted, pured, weaken,
}
use git_vws.Maintenance.Report.{MaintenanceEntry, MaintenanceReport}
use git_vws.Maintenance.Output
use git_vws.Maintenance.Output.{
  Console, line_of, summary_of, entry_order, sort_by, is_greater, write_maintenance,
}
use git_vws.Maintenance.Words.{InOrder, entry_order-InOrder}
use git_vws.Maintenance.Order
use git_vws.Maintenance.Order.{IsSorted}
use git_vws.Base.{
  ◌≡◌, refl, ap, subst, List, [], ◌∷◌, ◌++◌, nat_Eq, string_Eq, bytes_Eq, option_bytes_Eq,
  option_nat_Eq, Bytes, Result, ok, err,
}

-- Each entry is in order with the next one.
unfoldable pub Ordered : List MaintenanceEntry → Type 0
Ordered [] = Unit {0}
Ordered (a ∷ []) = Unit {0}
Ordered (a ∷ (b ∷ bs)) = InOrder a b × Ordered (b ∷ bs)

IsSorted-Ordered : (l : List MaintenanceEntry) → IsSorted l → Ordered l
unfolding IsSorted Ordered
IsSorted-Ordered [] p = tt
IsSorted-Ordered (a ∷ []) p = tt
IsSorted-Ordered (a ∷ (b ∷ bs)) p = (entry_order-InOrder a b p.0, IsSorted-Ordered (b ∷ bs) p.1)

module _ {W Event : Type 0} (printed : Bytes → Event) (c : Console W) where
  -- The log has grown by the lines of these entries, each with its end.
  unfoldable pub Lines : List MaintenanceEntry → List Event → List Event → Type 0
  Lines [] old new = new ≡ old
  Lines (e ∷ es) old new =
      (bytes : Bytes) × (c.line_json (line_of e) ≡ ok bytes)
      × Lines es (printed (bytes ++ (10 ∷ [])) ∷ old) new

  -- The lines of a report that is printed whole: those of its entries, in order, and the summary's.
  pub record Printed (report : MaintenanceReport) (old new : List Event) : Type 0 where
    pub entries : List MaintenanceEntry
    pub ordered : Ordered entries
    pub rearranged : Perm entries report.entries
    pub middle : List Event
    pub lines : Lines entries old middle
    pub summary : Bytes
    pub summed : c.summary_json (summary_of (record report { entries = entries })) ≡ ok summary
    pub ended : new ≡ printed (summary ++ (10 ∷ [])) ∷ middle

  -- The log stands where it stood, with a line more.
  abbrev One : List Event → Result Bytes → World W Event → Type 0
  One old json w =
      (bytes : Bytes) × (json ≡ ok bytes) × (w.log ≡ printed (bytes ++ (10 ∷ [])) ∷ old)

  noted :
      (old : List Event) (json : Result Bytes) (bytes : Bytes)
      → json ≡ ok bytes
      → (x : Result (Unit {0}) × W) (log : List Event) → log ≡ old
      → Holds (λ _. One old json) (λ w. Unit {0}) (noted_ok (printed (bytes ++ (10 ∷ []))) log x)
  noted old json bytes e (ok u, w) log p = (bytes, e, ap (λ l. printed (bytes ++ (10 ∷ [])) ∷ l) p)
  noted old json bytes e (err x, w) log p = tt

  prints :
      (old : List Event) (json : Result Bytes)
      → Ensures (λ w. w.log ≡ old) (Output.print printed c json) (λ _. One old json) (λ w. Unit {0})
  unfolding Output.print note_ok
  prints old json =
      bind
        (lifted {Q = λ bytes w. (w.log ≡ old) × (json ≡ ok bytes)} json (λ bytes w e p. (p, e))
          (λ w p. tt))
        λ bytes. record {
          run = λ w p.
              noted old json bytes p.1 (c.write_all (bytes ++ (10 ∷ [])) w.outside) w.log p.0;
        }

  -- What is printed after one line, with that line.
  extended :
      (e : MaintenanceEntry) (es : List MaintenanceEntry) (old : List Event)
      → ((log : List Event)
          → Ensures
              (λ w. w.log ≡ log)
              (Output.print_lines printed c es)
              (λ _ w. Lines es log w.log)
              (λ w. Unit {0}))
      → (w : World W Event) → One old (c.line_json (line_of e)) w
      → Holds (λ _ w. Lines (e ∷ es) old w.log) (λ w. Unit {0}) (Output.print_lines printed c es w)
  unfolding Lines
  extended e es old rest w (bytes, q, p) =
      (weaken {Q' = λ _ w. Lines (e ∷ es) old w.log} (λ w p. p) (λ u w r. (bytes, q, r)) (λ w p. p)
          (rest (printed (bytes ++ (10 ∷ [])) ∷ old))).run
        w p

  prints_lines :
      (es : List MaintenanceEntry) (old : List Event)
      → Ensures
          (λ w. w.log ≡ old)
          (Output.print_lines printed c es)
          (λ _ w. Lines es old w.log)
          (λ w. Unit {0})
  unfolding Output.print_lines Lines
  prints_lines [] old = pured tt (λ w p. p)
  prints_lines (e ∷ es) old =
      let rest = prints_lines es in
      seq (prints old (c.line_json (line_of e)))
        (record { run = λ w p. extended e es old rest w p })

  flushed :
      (P : List Event → Type 0) (x : Result (Unit {0}) × W) (log : List Event)
      → P log
      → Holds {Event = Event}
          (λ _ w. P w.log)
          (λ w. Unit {0})
          (x.0, record { outside = x.1; log = log })
  flushed P (ok u, w) log p = p
  flushed P (err e, w) log p = tt

  summarised :
      (report : MaintenanceReport) (old : List Event) (w : World W Event)
      → Lines (sort_by entry_order report.entries) old w.log
      → Ensures
          (λ v. v.log ≡ w.log)
          (Output.print printed c (
            c.summary_json
              (summary_of (record report { entries = sort_by entry_order report.entries }))))
          (λ _ v. Printed report old v.log)
          (λ v. Unit {0})
  summarised report old w lines =
      weaken (λ v p. p)
        (λ u v p. record {
          entries = sort_by entry_order report.entries;
          ordered = IsSorted-Ordered _ (Order.sorted report.entries);
          rearranged = ∣ Order.sort_by-Perm entry_order report.entries ∣₁;
          middle = w.log;
          lines = lines;
          summary = p.0;
          summed = p.1;
          ended = p.2;
        })
        (λ v p. p) (prints w.log _)

  writes :
      (report : MaintenanceReport) (old : List Event)
      → Ensures
          (λ w. w.log ≡ old)
          (write_maintenance printed c report)
          (λ _ w. Printed report old w.log)
          (λ w. Unit {0})
  unfolding Output.write_maintenance silent
  writes report old = seq (prints_lines _ old) (
      seq (record { run = λ w p. (summarised report old w p).run w refl })
        (record { run = λ w p. flushed (Printed report old) (c.flush w.outside) w.log p }))

  -- Where `write_maintenance` succeeds, the log has grown by a line for each entry of the report, as often
  -- as the report holds it, and after them by the line of the summary of these entries. Each entry's
  -- words (scope, record's name, path's name, state and code) are lexicographically below the next
  -- one's or the same, where words too are compared lexicographically, byte by byte.
  pub write_maintenance-Printed :
      (report : MaintenanceReport) (w w' : World W Event) (u : Unit {0})
      → write_maintenance printed c report w ≡ (ok u, w')
      → Printed report w.log w'.log
  write_maintenance-Printed report w w' u e =
      subst (Holds (λ _ v. Printed report w.log v.log) (λ v. Unit {0})) e
        ((writes report w.log).run w refl)
