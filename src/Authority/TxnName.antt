-- ===== src/Authority/TxnName.antt =====
-- src/authority.rs: the temporary name of a record transaction, `.{record}-{pid}-{counter}.tmp`,
-- and `record_txn_final_name`, which finds the record's name in it.
use git_vws.Base.{
  ℕ, ◌≡◌, ◌≢◌, true, false, ◌||◌, not, Option, none, some, [], ◌∷◌, ◌++◌, arith, if◌then◌else◌,
  nat_Eq, string_Eq, bytes_Eq, option_bytes_Eq, all, All-mono, All→all, Bytes, codes, Lacks,
  is_empty, is_digit, strip_prefix, strip_suffix, cut_last, strip_prefix-append,
  strip_suffix-append, cut_last-append, decimal, decimal-All, decimal-ne-nil,
}

abbrev pub dash : ℕ
dash = b'-'

-- `split_record_txn_component`
unfoldable pub split_record_txn_component : Bytes → Option (Bytes × Bytes)
split_record_txn_component value = cut_last dash value

abbrev and_then {ℓ κ} : {A : Type ℓ} {B : Type κ} → Option A → (A → Option B) → Option B
and_then none f = none
and_then (some a) f = f a

unfoldable pub accept : Bytes → Bytes → Bytes → Option Bytes
accept final_name pid counter =
    if is_empty final_name
      || is_empty pid
      || is_empty counter
      || not (all is_digit pid)
      || not (all is_digit counter)
    then none
    else some final_name

unfoldable pub record_txn_final_name : Bytes → Option Bytes
unfolding split_record_txn_component accept
record_txn_final_name name = and_then (strip_prefix (codes ".") name) λ rest.
    and_then (strip_suffix (codes ".tmp") rest) λ stem.
      and_then (split_record_txn_component stem) λ outer.
        and_then (split_record_txn_component outer.0) λ inner. accept inner.0 inner.1 outer.1

-- `format!(".{}-{}-{}.tmp", …)` of `begin_with_expected`, where `lossy` is `from_utf8_lossy`.
unfoldable pub temporary_name : (Bytes → Bytes) → Bytes → ℕ → ℕ → Bytes
temporary_name lossy basename pid counter =
    codes "."
    ++ (((lossy basename ++ (dash ∷ decimal pid)) ++ (dash ∷ decimal counter)) ++ codes ".tmp")

decimal-Lacks-dash : (n : ℕ) → Lacks dash (decimal n)
decimal-Lacks-dash n = All-mono (decimal n) (λ c h. ground arith) (decimal-All n)

decimal_digits : (n : ℕ) → all is_digit (decimal n) ≡ true
decimal_digits n = All→all is_digit (decimal n) (λ c h. ground arith) (decimal-All n)

decimal-is_empty : (n : ℕ) → is_empty (decimal n) ≡ false
decimal-is_empty n = ground (arith, decimal-ne-nil n)

-- The temporary file of a transaction leads back to the record that it is for: whatever the
-- record's name holds, dashes too, if it is well-formed UTF-8 and not empty.
pub record_txn_final_name-temporary_name :
    (lossy : Bytes → Bytes) (basename : Bytes) (pid counter : ℕ)
    → lossy basename ≡ basename
    → basename ≢ []
    → record_txn_final_name (temporary_name lossy basename pid counter) ≡ some basename
unfolding record_txn_final_name temporary_name
record_txn_final_name-temporary_name lossy basename pid counter h ne = rw h (
    ground (
      arith,
      strip_prefix-append (codes ".")
          (((basename ++ (dash ∷ decimal pid)) ++ (dash ∷ decimal counter)) ++ codes ".tmp"),
      strip_suffix-append ((basename ++ (dash ∷ decimal pid)) ++ (dash ∷ decimal counter))
          (codes ".tmp"),
      cut_last-append dash (basename ++ (dash ∷ decimal pid)) (decimal counter)
          (decimal-Lacks-dash counter),
      cut_last-append dash basename (decimal pid) (decimal-Lacks-dash pid),
      decimal_digits pid,
      decimal_digits counter,
      decimal-is_empty pid,
      decimal-is_empty counter,
    ))
