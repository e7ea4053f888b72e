-- ===== src/Maintenance/Reachable.antt =====
-- The census of the sessions misses no session: where it asks for no recovery, every record file in
-- the container was read, and the key of its template is among the reachable ones.
use git_vws.Effect
use git_vws.Effect.{
  World, M, ◌>>=◌, continue, lift, pure, silent, caught, Holds, Ensures, bind, seq, lifted, pured,
  given, branch, weaken, catching, Any, whatever, using,
}
use git_vws.Session.Host.{RecordCapability, Event, Host}
use git_vws.Session.Names.{session_record_name}
use git_vws.Session.Store.{read_record_capability}
use git_vws.Session.Store
use git_vws.Session.Journal.{is_idle}
use git_vws.Maintenance.Report.{entry, recovery}
use git_vws.Template.Store.{RecordTxnTemporary}
use git_vws.Maintenance.Sessions
use git_vws.Maintenance.Sessions.{Sweep, CensusCapability, SessionCensus}
use git_vws.Base.{
  ◌≡◌, refl, subst, ◌⊎◌, inl, inr, Bool, true, false, not, Option, List, [], ◌∷◌, ◌++◌,
  if◌then◌else◌, ◌==◌, nat_Eq, string_Eq, bytes_Eq, option_bytes_Eq, option_nat_Eq, any, All,
  All-mono, Bytes, codes, Result, ok, err,
}

-- One of the list.
unfoldable pub In : {A : Type 0} → A → List A → Type 0
In a [] = ⊥
In a (b ∷ bs) = (a ≡ b) ⊎ In a bs

module _ {A : Type 0} (a : A) where
  In-append_left : (xs ys : List A) → In a xs → In a (xs ++ ys)
  unfolding In
  In-append_left [] ys m = absurd m
  In-append_left (x ∷ xs) ys (inl e) = inl e
  In-append_left (x ∷ xs) ys (inr m) = inr (In-append_left xs ys m)

  In-append_last : (xs : List A) → In a (xs ++ (a ∷ []))
  unfolding In
  In-append_last [] = inl refl
  In-append_last (x ∷ xs) = inr (In-append_last xs)

-- The record file `name` was read, and the key of its template is reachable.
pub record Counted {Plan : Type 0} (census : SessionCensus Plan) (name : Bytes) : Type 0 where
  pub found : CensusCapability Plan
  pub is_counted : In found census.capabilities
  pub named : found.capability.basename ≡ name
  pub reachable : In found.capability.session_record.template_key census.reachable_templates

unfoldable pub Covers : {Plan : Type 0} → List Bytes → SessionCensus Plan → Type 0
Covers names census = All (λ name. session_record_name name ≡ true → Counted census name) names

-- What a later part of the census adds to an earlier one.
record Grows {Plan : Type 0} (c d : SessionCensus Plan) : Type 0 where
  quiet : d.report.recovery_required ≡ false → c.report.recovery_required ≡ false
  capabilities : (x : CensusCapability Plan) → In x c.capabilities → In x d.capabilities
  keys : (k : Bytes) → In k c.reachable_templates → In k d.reachable_templates

module _ {Plan : Type 0} where
  Grows-refl : (c : SessionCensus Plan) → Grows c c
  Grows-refl c = record { quiet = λ e. e; capabilities = λ x m. m; keys = λ k m. m }

  Grows-trans : {c d e : SessionCensus Plan} → Grows c d → Grows d e → Grows c e
  Grows-trans g h = record {
    quiet = λ e. g.quiet (h.quiet e);
    capabilities = λ x m. h.capabilities x (g.capabilities x m);
    keys = λ k m. h.keys k (g.keys k m);
  }

  Counted-grows :
      {c d : SessionCensus Plan} → Grows c d → (name : Bytes) → Counted c name → Counted d name
  Counted-grows g name x = record {
    found = x.found;
    is_counted = g.capabilities x.found x.is_counted;
    named = x.named;
    reachable = g.keys x.found.capability.session_record.template_key x.reachable;
  }

module _ {W Plan : Type 0} (h : Host W) (t : Sweep W Plan) where
  -- What is read under a name has it as its basename.
  reads :
      (name : Bytes)
      → Ensures {W = W} Any (read_record_capability h name) (λ c w. c.basename ≡ name) Any
  unfolding Store.read_record_capability Store.capability_from_binding
  reads name =
      bind (whatever _) λ b. bind (whatever _) λ r. seq (whatever _) (pured _ (λ w p. refl))

  counted_record-Grows :
      (census : SessionCensus Plan) (name : Bytes) (c : RecordCapability) (r : Result (Option Plan))
      → Grows census (Sessions.counted_record h t census name c r)
  unfolding Sessions.counted_record Sessions.with_key Sessions.record_line recovery entry
  counted_record-Grows census name c (err e) = record {
    quiet = λ e. absurd (cc);
    capabilities = λ x m. In-append_left x census.capabilities _ m;
    keys = λ k m. m;
  }
  counted_record-Grows census name c (ok plan) = record {
    quiet = line_quiet (is_idle c.session_record.journal);
    capabilities = λ x m. In-append_left x census.capabilities _ m;
    keys = λ k m. In-append_left k census.reachable_templates _ m;
  }
    where
      line_quiet :
          (b : Bool)
          → (if not b
              then Sessions.finding census.report name (codes "PUBLISH")
              else Sessions.item census.report name
                  (Sessions.census_state c.session_record.payload)
                  (Sessions.census_code c.session_record.payload)).recovery_required
            ≡ false
          → census.report.recovery_required ≡ false
      line_quiet true e = e
      line_quiet false e = absurd (cc)

  counted :
      (census : SessionCensus Plan) (name : Bytes) (c : RecordCapability) (r : Result (Option Plan))
      → c.basename ≡ name
      → (Sessions.counted_record h t census name c r).report.recovery_required ≡ false
      → Counted (Sessions.counted_record h t census name c r) name
  unfolding Sessions.counted_record Sessions.with_key Sessions.record_line recovery entry
  counted census name c (err e) q quiet = absurd (cc)
  counted census name c (ok plan) q quiet = record {
    found = record { capability = c; private_objects = plan };
    is_counted = In-append_last _ census.capabilities;
    named = q;
    reachable = In-append_last _ census.reachable_templates;
  }

  -- The part `d` of the census has seen the record file `name`.
  abbrev Seen : SessionCensus Plan → SessionCensus Plan → Bytes → Type 0
  Seen c d name = Grows c d × (d.report.recovery_required ≡ false → Counted d name)

  held_run :
      {A : Type 0} (C : Type 0) (c : C) (x : Result A × World W Event) → Holds (λ _ w. C) Any x
  held_run C c (ok a, w) = c
  held_run C c (err e, w) = tt

  holding : {A : Type 0} (C : Type 0) (m : M W Event A) → Ensures {W = W} (λ w. C) m (λ _ w. C) Any
  holding C m = record { run = λ w c. held_run C c (m w) }

  counts_record :
      (census : SessionCensus Plan) (authorized : List Bytes) (name : Bytes)
      (r : Result RecordCapability)
      → Ensures
          (Effect.Caught (λ c w. c.basename ≡ name) Any Any r)
          (Sessions.count_record h t census authorized name r)
          (λ next w. Seen census next.0 name)
          Any
  unfolding Effect.Caught Sessions.count_record recovery entry
  counts_record census authorized name (ok c) =
      bind (holding (c.basename ≡ name) (caught (Sessions.classify h t c)))
        λ r. pured _ (λ w q. (counted_record-Grows census name c r, counted census name c r q))
  counts_record census authorized name (err e) = pured _ (λ w p. (
    record { quiet = λ q. absurd (cc); capabilities = λ x m. m; keys = λ k m. m },
    λ q. absurd (cc),
  ))

  counts_records :
      (names : List Bytes) (census : SessionCensus Plan) (authorized : List Bytes)
      → Ensures Any
          (Sessions.count_records h t names census authorized)
          (λ next w.
            Grows census next.0 × (next.0.report.recovery_required ≡ false → Covers names next.0))
          Any
  unfolding Sessions.count_records Covers
  counts_records [] census authorized = pured _ (λ w p. (Grows-refl census, λ q. tt))
  counts_records (name ∷ names) census authorized =
      branch (session_record_name name)
        (λ e. bind (catching (λ c w. c.basename ≡ name) Any Any (reads name)) λ r.
          bind (counts_record census (authorized ++ (name ∷ [])) name r) λ next. using λ seen.
            weaken (λ w p. p)
              (λ last w p. (
                Grows-trans seen.0 p.0,
                λ q. (λ e. Counted-grows p.0 name (seen.1 (p.0.quiet q)), p.1 q),
              ))
              (λ w p. p) (counts_records names next.0 next.1))
        (λ e.
          weaken (λ w p. p) (λ last w p. (p.0, λ q. (λ e'. absurd (cc), p.1 q))) (λ w p. p)
            (counts_records names census authorized))

  count_temporary-Grows :
      (report_temporary : Bool) (census : SessionCensus Plan) (name : Bytes)
      (r : Result (RecordCapability × RecordTxnTemporary))
      → Grows census (Sessions.count_temporary h t report_temporary census name r)
  unfolding Sessions.count_temporary recovery entry
  count_temporary-Grows true census name (ok found) = record {
    quiet = λ q. q;
    capabilities = λ x m. m;
    keys = λ k m. m;
  }
  count_temporary-Grows false census name (ok found) = record {
    quiet = λ q. q;
    capabilities = λ x m. m;
    keys = λ k m. m;
  }
  count_temporary-Grows b census name (err e) = record {
    quiet = λ q. absurd (cc);
    capabilities = λ x m. m;
    keys = λ k m. m;
  }

  counts_other :
      (report_temporary : Bool) (census : SessionCensus Plan) (name : Bytes)
      → Ensures Any
          (Sessions.count_other h t report_temporary census name)
          (λ d w. Grows census d)
          Any
  unfolding Sessions.count_other recovery entry
  counts_other report_temporary census name =
      branch (Sessions.is_temporary name)
        (λ e. bind (whatever (caught (Sessions.session_predecessor_temporary h t name))) λ r.
          pured (Sessions.count_temporary h t report_temporary census name r)
            (λ w p. count_temporary-Grows report_temporary census name r))
        (λ e.
          pured (record census { report = Sessions.finding census.report name (codes "UNKNOWN") })
            (λ w p. record { quiet = λ q. absurd (cc); capabilities = λ x m. m; keys = λ k m. m }))

  counts_others :
      (report_temporary : Bool) (names : List Bytes) (census : SessionCensus Plan)
      (authorized : List Bytes)
      → Ensures Any
          (Sessions.count_others h t report_temporary names census authorized)
          (λ d w. Grows census d)
          Any
  unfolding Sessions.count_others
  counts_others report_temporary [] census authorized = pured census (λ w p. Grows-refl census)
  counts_others report_temporary (name ∷ names) census authorized =
      branch (any (λ known. known == name) authorized)
        (λ e. counts_others report_temporary names census authorized)
        (λ e. bind (whatever (silent (t.is_ignorable name))) λ ignorable.
          branch ignorable (λ e. counts_others report_temporary names census authorized)
            (λ e. bind (counts_other report_temporary census name) λ next. using λ g.
              weaken (λ w p. p) (λ d w p. Grows-trans g p) (λ w p. p)
                (counts_others report_temporary names next authorized)))

  -- The census from the listing of the container on.
  covers :
      (report_temporary : Bool) (names : List Bytes)
      → Ensures Any
          (Sessions.census_of h t report_temporary names)
          (λ d w. d.report.recovery_required ≡ false → Covers names d)
          Any
  unfolding Sessions.census_of Covers
  covers report_temporary names = bind (counts_records names _ []) λ first. using λ p.
      weaken (λ w q. q)
        (λ d w g q. All-mono names (λ name f e. Counted-grows g name (f e)) (p.1 (g.quiet q)))
        (λ w q. q) (counts_others report_temporary names first.0 first.1)

  listed_run :
      (report_temporary : Bool) (x : Result (List Bytes) × W) (log : List Event)
      (census : SessionCensus Plan) (w' : World W Event)
      → continue
          (x.0, record { outside = x.1; log = log })
          (Sessions.census_of h t report_temporary)
        ≡ (ok census, w')
      → census.report.recovery_required ≡ false
      → (names : List Bytes) × (x.0 ≡ ok names) × Covers names census
  listed_run report_temporary (err e, w) log census w' q quiet = absurd (cc)
  listed_run report_temporary (ok names, w) log census w' q quiet = (
    names,
    refl,
    subst (Holds (λ d v. d.report.recovery_required ≡ false → Covers names d) Any) q
        ((covers report_temporary names).run (record { outside = w; log = log }) tt) quiet,
  )

  -- Where the census of the sessions succeeds and asks for no recovery, it has read every record file
  -- that the listing of the container names, and the key of that session's template is reachable.
  pub session_census-Covers :
      (report_temporary : Bool) (w w' : World W Event) (census : SessionCensus Plan)
      → Sessions.session_census h t report_temporary w ≡ (ok census, w')
      → census.report.recovery_required ≡ false
      → (names : List Bytes) × ((t.directory_names w.outside).0 ≡ ok names) × Covers names census
  unfolding Sessions.session_census silent ◌>>=◌
  session_census-Covers report_temporary w w' census e quiet =
      listed_run report_temporary (t.directory_names w.outside) w.log census w' e quiet
