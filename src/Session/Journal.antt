-- ===== src/Session/Journal.antt =====
-- src/session.rs: `PublishJournal`, the stages of a publication that a record remembers.
use git_vws.Base.{
  String, Bool, true, false, Option, none, some, nat_Eq, string_Eq, Bytes-discrete,
  OptionBytes-discrete, bytes_Eq, option_bytes_Eq, Bytes,
}

-- What every stage but `idle` has frozen.
pub record Frozen : Type 0 where
  pub txid : Bytes
  pub new : Bytes
  pub expected_old : Option Bytes
  pub config_fingerprint : Bytes

pub data PublishJournal : Type 0 where
  idle : PublishJournal
  prepared : Frozen → PublishJournal
  objects_imported : Frozen → PublishJournal
  cas_attempted : Frozen → PublishJournal
  cas_committed : Frozen → PublishJournal

unfoldable pub Frozen-discrete : Discrete Frozen
unfolding Bytes-discrete OptionBytes-discrete
Frozen-discrete = hlevel (Bytes-discrete, OptionBytes-discrete)

unfoldable pub PublishJournal-discrete : Discrete PublishJournal
unfolding Frozen-discrete
PublishJournal-discrete = hlevel Frozen-discrete

abbrev pub is_idle : PublishJournal → Bool
is_idle idle = true
is_idle _ = false

-- `PublishJournal::state`
abbrev pub state : PublishJournal → String
state idle = "IDLE"
state (prepared f) = "PREPARED"
state (objects_imported f) = "OBJECTS_IMPORTED"
state (cas_attempted f) = "CAS_ATTEMPTED"
state (cas_committed f) = "CAS_COMMITTED"

-- `PublishJournal::fields`
abbrev pub fields : PublishJournal → Option Frozen
fields idle = none
fields (prepared f) = some f
fields (objects_imported f) = some f
fields (cas_attempted f) = some f
fields (cas_committed f) = some f
