-- ===== src/Storage/Receipts.antt =====
-- src/storage.rs: the receipts that records hold. Their derived equality is `==`.
use git_vws.Authority.Identity.{Identity, Identity-discrete}
use git_vws.Base.{
  ℕ, ℕ_discrete, Eq, nat_Eq, string_Eq, discrete_Eq, Bytes-discrete, bytes_Eq, option_bytes_Eq,
  Bytes,
}

pub record ManifestReceipt : Type 0 where
  pub digest : Bytes
  pub entries : ℕ

unfoldable pub ManifestReceipt-discrete : Discrete ManifestReceipt
unfolding ℕ_discrete Bytes-discrete
ManifestReceipt-discrete = hlevel (ℕ_discrete, Bytes-discrete)

pub record SealedTreeReceipt : Type 0 where
  pub root : Identity
  pub volume : Bytes
  pub manifest : ManifestReceipt
  pub content_digest : Bytes

unfoldable pub SealedTreeReceipt-discrete : Discrete SealedTreeReceipt
unfolding ManifestReceipt-discrete Bytes-discrete Identity-discrete
SealedTreeReceipt-discrete = hlevel (ManifestReceipt-discrete, Bytes-discrete, Identity-discrete)

pub record CowReceipt : Type 0 where
  pub source : SealedTreeReceipt
  pub destination : Identity

unfoldable pub CowReceipt-discrete : Discrete CowReceipt
unfolding SealedTreeReceipt-discrete Identity-discrete
CowReceipt-discrete = hlevel (SealedTreeReceipt-discrete, Identity-discrete)

instance abbrev pub manifest_Eq : Eq ManifestReceipt
manifest_Eq = discrete_Eq ManifestReceipt-discrete

instance abbrev pub sealed_Eq : Eq SealedTreeReceipt
sealed_Eq = discrete_Eq SealedTreeReceipt-discrete
