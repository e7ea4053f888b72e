-- ===== src/Session/Create/Changes.antt =====
-- What a `create` changes, and the logs that it may leave.
use git_vws.Authority.Identity.{Identity, Authority}
use git_vws.Effect.{World}
use git_vws.Session.Types.{SessionRecord, SessionPayload, ReadyPayload, session_record_Eq}
use git_vws.Session.Host.{
  RecordCapability, Event, ran, wrote, removed, executed, loose_collected, destroyed, Host,
}
use git_vws.Session.Names.{record_name}
use git_vws.Session.Store
use git_vws.Session.Files.{Files}
use git_vws.Session.Lifecycle.{matches_existing, ensure_publish_idle}
use git_vws.Session.Lifecycle.Refusals.{stage}
use git_vws.Session.Create.Materialize
use git_vws.Session.Create.Materialize.{Services, Template, CreateRequest}
use git_vws.Base.{
  ℕ, zero, suc, ◌≤◌, ◌≡◌, ◌⊎◌, true, Option, some, List, [], ◌∷◌, ◌++◌, nat_Eq, string_Eq, bytes_Eq,
  option_bytes_Eq, option_nat_Eq, Bytes, Result, ok, err,
}

-- What changes a session on the disk: a record of a stage, the end of the tree, the end of the record.
pub data Change : Type 0 where
  recorded : ℕ → Change
  tree_gone record_gone : Change

-- The changes in a log, newest first.
unfoldable pub changes : List Event → List Change
changes [] = []
changes (wrote r ∷ log) = recorded (stage r.payload) ∷ changes log
changes (destroyed name ∷ log) = tree_gone ∷ changes log
changes (removed name ∷ log) = record_gone ∷ changes log
changes (ran inv ∷ log) = changes log
changes (executed name args ∷ log) = changes log
changes (loose_collected name ∷ log) = changes log

-- The records PREPARED, MATERIALIZING and READY, as far as the first `n`.
unfoldable pub steps : ℕ → List Change
steps zero = []
steps (suc n) = recorded n ∷ steps n

-- A session that was there and that a `create` may answer with: its record was read under the name of
-- the record that the request leads to, is READY with no publication under way, and names the same
-- session, made from the same inputs.
pub record Existing {W : Type 0} (h : Host W) (f : Files W) (s : Services W)
    (request : CreateRequest) : Type 0 where
  pub authority : Authority
  pub target_old : Option Bytes
  pub base : Bytes
  pub template : Template
  pub container_identity : Identity
  pub volume : Bytes
  pub wanted : SessionRecord
  pub wanted_as :
      wanted
      ≡ Materialize.prepared_record h f s authority request.name
          (Materialize.chosen_target request.target request.name)
          target_old
          base
          template
          container_identity
          volume
  pub existing : RecordCapability
  pub read :
      (w0 w1 : World W Event) × (Store.optional_record h (record_name wanted.sid) authority w0
        ≡ (ok (some existing), w1))
  pub idle : ensure_publish_idle existing.session_record ≡ ok tt
  pub same : matches_existing existing.session_record wanted ≡ true
  pub payload : ReadyPayload
  pub is_ready : existing.session_record.payload ≡ SessionPayload.ready payload

-- The changes since `l` where a `create` has succeeded: all three records, or none if `Found`.
unfoldable pub Complete : Type 0 → List Change → List Event → Type 0
Complete Found l log = (changes log ≡ steps 3 ++ l) ⊎ ((changes log ≡ l) × Found)

-- The changes after the first `n` records, perhaps with the tree taken back and after it the record.
unfoldable pub Partial : ℕ → List Change → List Event → Type 0
Partial n l log =
    (changes log ≡ steps n ++ l)
    ⊎ ((changes log ≡ tree_gone ∷ (steps n ++ l))
        ⊎ (changes log ≡ record_gone ∷ (tree_gone ∷ (steps n ++ l))))

unfoldable pub Unfinished : List Change → List Event → Type 0
Unfinished l log = (n : ℕ) × (n ≤ 3) × Partial n l log

unfoldable pub Created : {W A : Type 0} → Type 0 → List Change → Result A × World W Event → Type 0
unfolding Complete Unfinished
Created Found l (ok a, w) = Complete Found l w.log
Created Found l (err e, w) = Unfinished l w.log
