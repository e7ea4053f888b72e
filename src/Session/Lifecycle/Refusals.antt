-- ===== src/Session/Lifecycle/Refusals.antt =====
-- What a removal refuses before it touches anything, and which record may follow which.
use git_vws.Effect.{World, M, Holds, Ensures, bind, seq, lifted}
use git_vws.Session.Journal.{is_idle}
use git_vws.Session.Types.{SessionRecord, SessionPayload}
use git_vws.Session.Validate.{is_ready}
use git_vws.Session.Host.{RecordCapability, SessionContext, Event, Host}
use git_vws.Session.Lifecycle
use git_vws.Session.Lifecycle.{session_precedes, ensure_publish_idle}
use git_vws.Session.Lifecycle.Removal.{is_tombstoned}
use git_vws.Base.{
  ℕ, ◌+◌, ◌≡◌, refl, ◌≢◌, ◌⊎◌, inl, inr, Bool, true, false, ◌||◌, not, arith, if◌then◌else◌, nat_Eq,
  string_Eq, Bytes-discrete, bytes_Eq, option_bytes_Eq, option_nat_Eq, Error, Result, ok, err,
}

-- The stage of a session's life.
unfoldable pub stage : SessionPayload → ℕ
stage (SessionPayload.prepared root) = 0
stage (SessionPayload.materializing root i) = 1
stage (SessionPayload.ready p) = 2
stage (SessionPayload.tombstoned root tombstone i) = 3

next_stage : (p q : SessionPayload) → Lifecycle.stage_precedes p q ≡ true → stage q ≡ stage p + 1
unfolding Lifecycle.stage_precedes stage
next_stage (SessionPayload.prepared left) (SessionPayload.materializing right i) h = refl
next_stage (SessionPayload.materializing left i) (SessionPayload.ready p) h = refl
next_stage (SessionPayload.ready p) (SessionPayload.tombstoned right t i) h = refl
next_stage (SessionPayload.prepared left) (SessionPayload.prepared right) h = absurd (cc)
next_stage (SessionPayload.prepared left) (SessionPayload.ready p) h = absurd (cc)
next_stage (SessionPayload.prepared left) (SessionPayload.tombstoned right t i) h = absurd (cc)
next_stage (SessionPayload.materializing left j) (SessionPayload.prepared right) h = absurd (cc)
next_stage (SessionPayload.materializing left j) (SessionPayload.materializing right i) h =
    absurd (cc)
next_stage (SessionPayload.materializing left j) (SessionPayload.tombstoned right t i) h =
    absurd (cc)
next_stage (SessionPayload.ready q) (SessionPayload.prepared right) h = absurd (cc)
next_stage (SessionPayload.ready q) (SessionPayload.materializing right i) h = absurd (cc)
next_stage (SessionPayload.ready q) (SessionPayload.ready p) h = absurd (cc)
next_stage (SessionPayload.tombstoned l u j) (SessionPayload.prepared right) h = absurd (cc)
next_stage (SessionPayload.tombstoned l u j) (SessionPayload.materializing right i) h = absurd (cc)
next_stage (SessionPayload.tombstoned l u j) (SessionPayload.ready p) h = absurd (cc)
next_stage (SessionPayload.tombstoned l u j) (SessionPayload.tombstoned right t i) h = absurd (cc)

precedes_parts :
    (x y z s : Bool)
    → (if not x || not y || not z then false else s) ≡ true
    → (x ≡ true) × ((y ≡ true) × ((z ≡ true) × (s ≡ true)))
precedes_parts x y z s h = (ground arith, (ground arith, (ground arith, ground arith)))

same_sid : (a b : SessionRecord) → Lifecycle.matches_existing a b ≡ true → a.sid ≡ b.sid
unfolding Lifecycle.matches_existing Bytes-discrete
same_sid a b h = ground arith

-- A record that precedes another is of the same session and of the stage just before: no stage is
-- skipped or gone back to. Neither has a publication under way.
pub session_precedes-next :
    (a b : SessionRecord)
    → session_precedes a b ≡ true
    → (a.sid ≡ b.sid)
      × (stage b.payload ≡ stage a.payload + 1)
      × (is_idle a.journal ≡ true)
      × (is_idle b.journal ≡ true)
unfolding session_precedes
session_precedes-next a b h =
    let (same, (idle_a, (idle_b, next))) =
      precedes_parts (Lifecycle.matches_existing a b) (is_idle a.journal) (is_idle b.journal)
        (Lifecycle.stage_precedes a.payload b.payload) h in
    (same_sid a b same, next_stage a.payload b.payload next, idle_a, idle_b)

module _ {W : Type 0} (h : Host W) where
  abbrev Refused : {A : Type 0} → World W Event → M W Event A → Type 0
  Refused w m = Ensures (λ v. v ≡ w) m (λ a v. ⊥) (λ v. v ≡ w)

  only_error :
      {A : Type 0} (w : World W Event) (s : Result A × World W Event)
      → Holds (λ a v. ⊥) (λ v. v ≡ w) s
      → (e : Error) × (s ≡ (err e, w))
  only_error w (ok a, v) p = absurd p
  only_error w (err e, v) p = (e, cc)

  not_idle :
      (c : RecordCapability)
      → is_idle c.session_record.journal ≡ false
      → ensure_publish_idle c.session_record ≢ ok tt
  unfolding ensure_publish_idle
  not_idle c n e = ground arith

  busy :
      (context : SessionContext) (c : RecordCapability) (force : Bool) (w : World W Event)
      → is_idle c.session_record.journal ≡ false
      → Refused w (Lifecycle.remove_recorded h context c force)
  unfolding Lifecycle.remove_recorded
  busy context c force w n =
      seq {Q = λ v. ⊥} (lifted _ (λ a v e p. not_idle c n e) (λ v p. p))
        (record { run = λ v p. absurd p })

  incomplete_stage :
      (p : SessionPayload) (context : SessionContext) (c : RecordCapability) (force : Bool)
      (w : World W Event)
      → force ≡ false
      → (is_ready p || is_tombstoned p) ≡ false
      → Refused w (Lifecycle.remove_stage h p context c force)
  unfolding Lifecycle.remove_stage Lifecycle.remove_prepared Lifecycle.remove_materializing is_ready
      is_tombstoned
  incomplete_stage (SessionPayload.tombstoned root t i) context c force w f n = absurd (cc)
  incomplete_stage (SessionPayload.ready p) context c force w f n = absurd (cc)
  incomplete_stage (SessionPayload.materializing root i) context c true w f n = absurd (cc)
  incomplete_stage (SessionPayload.prepared root) context c true w f n = absurd (cc)
  incomplete_stage (SessionPayload.materializing root i) context c false w f n =
      seq {Q = λ v. ⊥} (lifted _ (λ a v e p. absurd (cc)) (λ v p. p))
        (record { run = λ v p. absurd p })
  incomplete_stage (SessionPayload.prepared root) context c false w f n =
      seq {Q = λ v. ⊥} (lifted _ (λ a v e p. absurd (cc)) (λ v p. p))
        (record { run = λ v p. absurd p })

  incomplete :
      (context : SessionContext) (c : RecordCapability) (force : Bool) (w : World W Event)
      → force ≡ false
      → (is_ready c.session_record.payload || is_tombstoned c.session_record.payload) ≡ false
      → Refused w (Lifecycle.remove_recorded h context c force)
  unfolding Lifecycle.remove_recorded
  incomplete context c force w f n = seq (lifted _ (λ a v e p. p) (λ v p. p)) (
      bind {Q = λ a v. ⊥} (incomplete_stage c.session_record.payload context c force w f n)
        λ rest. record { run = λ v p. absurd p })

  -- A removal fails and leaves the world as it is where a publication is under way, and where the
  -- session is neither READY nor a tombstone and the removal is not forced.
  pub remove_recorded-refuses :
      (context : SessionContext) (c : RecordCapability) (force : Bool) (w : World W Event)
      → (is_idle c.session_record.journal ≡ false)
        ⊎ ((force ≡ false)
            × ((is_ready c.session_record.payload || is_tombstoned c.session_record.payload)
                ≡ false))
      → (e : Error) × (Lifecycle.remove_recorded h context c force w ≡ (err e, w))
  remove_recorded-refuses context c force w (inl n) =
      only_error w (Lifecycle.remove_recorded h context c force w)
        ((busy context c force w n).run w refl)
  remove_recorded-refuses context c force w (inr (f, n)) =
      only_error w (Lifecycle.remove_recorded h context c force w)
        ((incomplete context c force w f n).run w refl)
