-- ===== src/Session/Create/Transaction.antt =====
-- src/session.rs: `CreateTxn`, which takes back what an unfinished `create` has made, or keeps it
-- where the error leaves open what is on the disk.
use git_vws.Authority.Identity.{Identity}
use git_vws.Effect.{M, ◌>>=◌, ◌>>◌, lift, note_ok, on_error}
use git_vws.Session.Host.{RecordCapability, Event, destroyed, Host}
use git_vws.Session.Store.{cstring, revalidate_record, remove_record_capability}
use git_vws.Base.{
  ℕ, Bool, false, ◌||◌, if◌then◌else◌, ◌==◌, nat_Eq, string_Eq, bytes_Eq, option_bytes_Eq,
  option_nat_Eq, Bytes, codes, starts_with, includes, Error, err,
}

-- The parts of `CreateTxn` that `abort` reads; it is armed until `create` ends.
pub record CreateTxn : Type 0 where
  pub capability : RecordCapability
  pub root : ℕ
  pub root_name : Bytes
  pub root_identity : Identity

unfoldable pub retain_creating : Error → Bool
retain_creating e =
    starts_with (codes "GIT_") (codes e.code)
    || includes (codes "RECOVERY") (codes e.code)
    || includes (codes "UNSYNCED") (codes e.code)
    || includes (codes "_IO_") (codes e.code)
    || e.code == "STATE_UNAVAILABLE"
    || includes (codes "rename") (codes e.detail)
    || includes (codes "sync") (codes e.detail)

module _ {W : Type 0} (h : Host W) where
  -- The end of `abort`, where the tree and the record are removed.
  unfoldable pub undo : {A : Type 0} → CreateTxn → Error → M W Event A
  undo t primary = do
    lift (cstring t.root_name)
    capability ← revalidate_record h t.capability
    note_ok (destroyed t.root_name) (h.remove_owned_tree t.root_name t.root_identity false)
    remove_record_capability h capability
    lift (err primary)

  unfoldable pub abort : {A : Type 0} → CreateTxn → Error → M W Event A
  abort t primary = if retain_creating primary then lift (err primary) else undo t primary

  -- A part of `materialize_session`, with what `create` does if it fails.
  unfoldable pub within : {A : Type 0} → CreateTxn → M W Event A → M W Event A
  within t m = on_error m (abort t)
