-- ===== src/Maintenance/Maintain.antt =====
-- `maintain` from the state root on, and what it leaves in the log.
use git_vws.Effect.{World, M, Ensures}
use git_vws.Session.Host.{Event, Host}
use git_vws.Template.Store.{Store}
use git_vws.Maintenance.Sessions.{Sweep}
use git_vws.Maintenance.Output.{Console}
use git_vws.Maintenance.Careful.{On, Careful}
use git_vws.Maintenance.Quiet
use git_vws.Maintenance.Survey
use git_vws.Maintenance.Survey.{After}
use git_vws.Maintenance.Run
use git_vws.Maintenance.Run.{MaintenanceEvent, in_sessions, in_templates, printed, surveyed, State}
use git_vws.Base.{◌≡◌, Bool, List, [], nat_Eq, string_Eq, bytes_Eq, option_bytes_Eq, option_nat_Eq}

module _ {W Plan : Type 0} (h : Host W) (t : Sweep W Plan) (s : Store W) (r : State W)
    (c : Console W) (cleanup : Bool) where
  -- Before any survey.
  abbrev First : List MaintenanceEvent → Type 0
  First = After cleanup []

  abbrev Ends : M W MaintenanceEvent (Unit {0}) → Type 0
  Ends m = Ensures (On First) m (λ _. On (Careful cleanup)) (On (Careful cleanup))

  abbrev Silent : World W Event → Type 0
  Silent w = w.log ≡ []
