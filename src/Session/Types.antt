-- ===== src/Session/Types.antt =====
-- src/session.rs: `SessionRecord`, what a session's record file says, and its payload, the stage of
-- the session's life.
use git_vws.Authority.Identity.{Identity, Identity-discrete}
use git_vws.Storage.Receipts.{
  SealedTreeReceipt, SealedTreeReceipt-discrete, CowReceipt, CowReceipt-discrete,
}
use git_vws.Session.Journal.{PublishJournal, PublishJournal-discrete}
use git_vws.Base.{
  ℕ, Option, ℕ_discrete, Eq, nat_Eq, string_Eq, discrete_Eq, Bytes-discrete, OptionBytes-discrete,
  bytes_Eq, option_bytes_Eq, Bytes,
}

pub record GitMetadataReceipt : Type 0 where
  pub dot_git : Bytes
  pub head : Bytes
  pub target_ref : Bytes
  pub index : Bytes
  pub worktrees : Bytes
  pub alternates : Bytes

pub record ReadyPayload : Type 0 where
  pub root_name : Bytes
  pub root_identity : Identity
  pub common_identity : Identity
  pub worktree : CowReceipt
  pub git : GitMetadataReceipt

pub data SessionPayload : Type 0 where
  prepared : (root_name : Bytes) → SessionPayload
  materializing : (root_name : Bytes) (root_identity : Identity) → SessionPayload
  ready : ReadyPayload → SessionPayload
  tombstoned : (root_name tombstone_name : Bytes) (root_identity : Identity) → SessionPayload

pub record SessionRecord : Type 0 where
  pub version : ℕ
  pub sid : Bytes
  pub authority_path : Bytes
  pub authority_identity : Identity
  pub name : Bytes
  pub base : Bytes
  pub target : Bytes
  pub expected_old : Option Bytes
  pub template_key : Bytes
  pub template : SealedTreeReceipt
  pub container_identity : Identity
  pub volume : Bytes
  pub payload : SessionPayload
  pub journal : PublishJournal

unfoldable pub GitMetadataReceipt-discrete : Discrete GitMetadataReceipt
unfolding Bytes-discrete
GitMetadataReceipt-discrete = hlevel Bytes-discrete

unfoldable pub ReadyPayload-discrete : Discrete ReadyPayload
unfolding GitMetadataReceipt-discrete Bytes-discrete Identity-discrete CowReceipt-discrete
ReadyPayload-discrete =
    hlevel (Bytes-discrete, Identity-discrete, CowReceipt-discrete, GitMetadataReceipt-discrete)

unfoldable pub SessionPayload-discrete : Discrete SessionPayload
unfolding ReadyPayload-discrete Bytes-discrete Identity-discrete
SessionPayload-discrete = hlevel (Bytes-discrete, Identity-discrete, ReadyPayload-discrete)

unfoldable pub SessionRecord-discrete : Discrete SessionRecord
unfolding SessionPayload-discrete PublishJournal-discrete SealedTreeReceipt-discrete
    Identity-discrete Bytes-discrete OptionBytes-discrete ℕ_discrete
SessionRecord-discrete = hlevel (
  ℕ_discrete, Bytes-discrete, OptionBytes-discrete, Identity-discrete, SealedTreeReceipt-discrete,
  SessionPayload-discrete, PublishJournal-discrete,
)

instance abbrev pub session_record_Eq : Eq SessionRecord
session_record_Eq = discrete_Eq SessionRecord-discrete
