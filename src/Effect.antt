-- ===== src/Effect.antt =====
-- Stateful code: a computation takes the world and returns a result and the world after it.
-- The world is the host's own state, of which the model knows nothing, and the log of what the
-- program has done to it, newest first. The log is written and never read by the program.
-- `Ensures P m Q E`: from `P`, `m` leads to `Q` of its value, or on a failure to `E`.
use git_vws.Base.{
  ◌++◌, map, [], Bool, true, false, List, ◌∷◌, Result, ok, err, Error, ◌≡◌, refl, if◌then◌else◌,
}

pub record World (W Event : Type 0) : Type 0 where
  pub outside : W
  pub log : List Event

module _ (W Event : Type 0) where
  abbrev pub M : Type 0 → Type 0
  M A = World W Event → Result A × World W Event

module _ {W Event : Type 0} where
  abbrev pub continue :
      {A B : Type 0} → Result A × World W Event → (A → M W Event B) → Result B × World W Event
  continue (ok a, w) f = f a w
  continue (err e, w) f = (err e, w)

  infixl 5 ◌>>=◌ ◌>>◌
  unfoldable pub ◌>>=◌ : {A B : Type 0} → M W Event A → (A → M W Event B) → M W Event B
  ◌>>=◌ m f w = continue (m w) f

  unfoldable pub ◌>>◌ : {B : Type 0} → M W Event (Unit {0}) → M W Event B → M W Event B
  unfolding ◌>>=◌
  m >> k = m >>= λ _. k

  -- A computation that does not touch the world.
  unfoldable pub lift : {A : Type 0} → Result A → M W Event A
  lift r w = (r, w)

  unfoldable pub pure : {A : Type 0} → A → M W Event A
  pure a w = (ok a, w)

  abbrev pub mapped :
      {A : Type 0} → (Error → Error) → Result A × World W Event → Result A × World W Event
  mapped f (ok a, w) = (ok a, w)
  mapped f (err e, w) = (err (f e), w)

  -- `.map_err(f)`
  unfoldable pub map_error : {A : Type 0} → (Error → Error) → M W Event A → M W Event A
  map_error f m w = mapped f (m w)

  abbrev handled_by :
      {A : Type 0} → Result A × World W Event → (Error → M W Event A) → Result A × World W Event
  handled_by (ok a, w) k = (ok a, w)
  handled_by (err e, w) k = k e w

  -- `match m { Ok(a) => Ok(a), Err(e) => k(e) }`
  unfoldable pub on_error : {A : Type 0} → M W Event A → (Error → M W Event A) → M W Event A
  on_error m k w = handled_by (m w) k

  abbrev caught_by : {A : Type 0} → Result A × World W Event → Result (Result A) × World W Event
  caught_by (r, w) = (ok r, w)

  -- The result of `m` as a value, for a caller that matches on it.
  unfoldable pub caught : {A : Type 0} → M W Event A → M W Event (Result A)
  caught m w = caught_by (m w)

  -- The call of a host operation, with the event that it leaves if it succeeds, and that it leaves
  -- in any case.
  unfoldable pub note : {A : Type 0} → Event → (W → Result A × W) → M W Event A
  note event op w =
      let (r, outside) = op w.outside in (r, record { outside = outside; log = event ∷ w.log })

  abbrev pub noted_ok : {A : Type 0} → Event → List Event → Result A × W → Result A × World W Event
  noted_ok event log (ok a, outside) = (ok a, record { outside = outside; log = event ∷ log })
  noted_ok event log (err e, outside) = (err e, record { outside = outside; log = log })

  unfoldable pub note_ok : {A : Type 0} → Event → (W → Result A × W) → M W Event A
  note_ok event op w = noted_ok event w.log (op w.outside)

  unfoldable pub silent : {A : Type 0} → (W → Result A × W) → M W Event A
  silent op w = let (r, outside) = op w.outside in (r, record w { outside = outside })

  abbrev pub Holds :
      {A : Type 0}
      → (A → World W Event → Type 0)
      → (World W Event → Type 0)
      → Result A × World W Event
      → Type 0
  Holds Q E (ok a, w) = Q a w
  Holds Q E (err e, w) = E w

  pub record Ensures {A : Type 0} (P : World W Event → Type 0) (m : M W Event A)
      (Q : A → World W Event → Type 0) (E : World W Event → Type 0) : Type 0 where
    pub run : (w : World W Event) → P w → Holds Q E (m w)

  module _ {A B : Type 0} (Q : A → World W Event → Type 0) (R : B → World W Event → Type 0)
      (E : World W Event → Type 0) where
    bind_run :
        (f : A → M W Event B)
        → ((a : A) → Ensures (Q a) (f a) R E)
        → (s : Result A × World W Event) → Holds Q E s
        → Holds R E (continue s f)
    bind_run f next (ok a, w) h = (next a).run w h
    bind_run f next (err e, w) h = h

  module _ {A B : Type 0} {P : World W Event → Type 0} {Q : A → World W Event → Type 0}
      {R : B → World W Event → Type 0} {E : World W Event → Type 0} where
    pub bind :
        {m : M W Event A} {f : A → M W Event B}
        → Ensures P m Q E
        → ((a : A) → Ensures (Q a) (f a) R E)
        → Ensures P (m >>= f) R E
    unfolding ◌>>=◌
    bind {m = m} {f = f} first next = record {
      run = λ w p. bind_run Q R E f next (m w) (first.run w p);
    }

  module _ {B : Type 0} {P Q : World W Event → Type 0} {R : B → World W Event → Type 0}
      {E : World W Event → Type 0} where
    pub seq :
        {m : M W Event (Unit {0})} {k : M W Event B}
        → Ensures P m (λ _. Q) E
        → Ensures Q k R E
        → Ensures P (m >> k) R E
    unfolding ◌>>◌
    seq first next = bind first (λ _. next)

  module _ {A : Type 0} (Q : A → World W Event → Type 0) (E : World W Event → Type 0) where
    mapped_run :
        (f : Error → Error) (s : Result A × World W Event) → Holds Q E s → Holds Q E (mapped f s)
    mapped_run f (ok a, w) h = h
    mapped_run f (err e, w) h = h

  module _ {A : Type 0} {P : World W Event → Type 0} {Q : A → World W Event → Type 0}
      {E : World W Event → Type 0} where
    lift_run :
        (r : Result A)
        → ((a : A) (w : World W Event) → r ≡ ok a → P w → Q a w)
        → ((w : World W Event) → P w → E w)
        → (w : World W Event) → P w
        → Holds Q E (lift r w)
    unfolding lift
    lift_run (ok a) f g w p = f a w refl p
    lift_run (err e) f g w p = g w p

    -- A computation of the program alone: what it returns is known.
    pub lifted :
        (r : Result A)
        → ((a : A) (w : World W Event) → r ≡ ok a → P w → Q a w)
        → ((w : World W Event) → P w → E w)
        → Ensures P (lift r) Q E
    lifted r f g = record { run = lift_run r f g }

    pub pured : (a : A) → ((w : World W Event) → P w → Q a w) → Ensures P (pure a) Q E
    unfolding pure
    pured a f = record { run = f }

    pub map_errored :
        (f : Error → Error) {m : M W Event A} → Ensures P m Q E → Ensures P (map_error f m) Q E
    unfolding map_error
    map_errored f {m} h = record { run = λ w p. mapped_run Q E f (m w) (h.run w p) }

    pub branch :
        (b : Bool) {m n : M W Event A}
        → (b ≡ true → Ensures P m Q E)
        → (b ≡ false → Ensures P n Q E)
        → Ensures P (if b then m else n) Q E
    branch true h k = h refl
    branch false h k = k refl

  module _ {A : Type 0} (Q Q' : A → World W Event → Type 0) (E E' : World W Event → Type 0) where
    weaken_run :
        (s : Result A × World W Event)
        → ((a : A) (w : World W Event) → Q a w → Q' a w)
        → ((w : World W Event) → E w → E' w)
        → Holds Q E s
        → Holds Q' E' s
    weaken_run (ok a, w) f g h = f a w h
    weaken_run (err e, w) f g h = g w h

  module _ {A : Type 0} {P P' : World W Event → Type 0} {Q Q' : A → World W Event → Type 0}
      {E E' : World W Event → Type 0} where
    pub weaken :
        {m : M W Event A}
        → ((w : World W Event) → P' w → P w)
        → ((a : A) (w : World W Event) → Q a w → Q' a w)
        → ((w : World W Event) → E w → E' w)
        → Ensures P m Q E
        → Ensures P' m Q' E'
    weaken {m} p q e h = record { run = λ w x. weaken_run Q Q' E E' (m w) q e (h.run w (p w x)) }

  module _ {A : Type 0} {P : World W Event → Type 0} {Q : A → World W Event → Type 0}
      {E : World W Event → Type 0} where
    -- A fact that holds beside `P` and does not speak of the world.
    pub given :
        {C : Type 0} {m : M W Event A} → (C → Ensures P m Q E) → Ensures (λ w. P w × C) m Q E
    given f = record { run = λ w h. (f h.1).run w h.0 }

  module _ {A : Type 0} {Q : A → World W Event → Type 0} {E F : World W Event → Type 0} where
    handled_run :
        (s : Result A × World W Event) (k : Error → M W Event A)
        → ((e : Error) → Ensures E (k e) Q F)
        → Holds Q E s
        → Holds Q F (handled_by s k)
    handled_run (ok a, w) k next h = h
    handled_run (err e, w) k next h = (next e).run w h

    pub recovered :
        {P : World W Event → Type 0} {m : M W Event A} {k : Error → M W Event A}
        → Ensures P m Q E
        → ((e : Error) → Ensures E (k e) Q F)
        → Ensures P (on_error m k) Q F
    unfolding on_error
    recovered {m = m} {k = k} first next = record {
      run = λ w p. handled_run (m w) k next (first.run w p);
    }

  module _ {A : Type 0} (Q : A → World W Event → Type 0) (E F : World W Event → Type 0) where
    unfoldable pub Caught : Result A → World W Event → Type 0
    Caught (ok a) w = Q a w
    Caught (err e) w = E w

    result_run : (s : Result A × World W Event) → Holds Q E s → Holds Caught F (caught_by s)
    unfolding Caught
    result_run (ok a, w) h = h
    result_run (err e, w) h = h

    pub catching :
        {P : World W Event → Type 0} {m : M W Event A}
        → Ensures P m Q E
        → Ensures P (caught m) Caught F
    unfolding caught
    catching {m = m} h = record { run = λ w p. result_run (m w) (h.run w p) }

-- A computation with a log of its own, inside one whose log has other events.
module _ {W Inner Outer : Type 0} where
  unfoldable pub joined :
      {A : Type 0}
      → (Inner → Outer)
      → List Outer
      → Result A × World W Inner
      → Result A × World W Outer
  joined f log (r, v) = (r, record { outside = v.outside; log = map f v.log ++ log })

  unfoldable pub embedded : {A : Type 0} → (Inner → Outer) → M W Inner A → M W Outer A
  unfolding joined
  embedded f m w = joined f w.log (m (record { outside = w.outside; log = [] }))

-- What a computation does outside its log.
module _ {W Event : Type 0} where
  unfoldable pub bare : {A : Type 0} → M W Event A → W → Result A × W
  bare m w = let (r, v) = m (record { outside = w; log = [] }) in (r, v.outside)

-- Nothing is said of the world: what is left are facts on the value.
module _ {W Event : Type 0} where
  abbrev pub Any : World W Event → Type 0
  Any w = Unit {0}

  any_run : {A : Type 0} (x : Result A × World W Event) → Holds (λ _. Any) Any x
  any_run (ok a, w) = tt
  any_run (err e, w) = tt

  pub whatever : {A : Type 0} (m : M W Event A) → Ensures Any m (λ _. Any) Any
  whatever m = record { run = λ w p. any_run (m w) }

  pub using :
      {A : Type 0} {C : Type 0} {m : M W Event A} {Q : A → World W Event → Type 0}
      → (C → Ensures Any m Q Any)
      → Ensures (λ w. C) m Q Any
  using f = record { run = λ w c. (f c).run w tt }

  answered_run :
      {A : Type 0} (op : W → Result A × W) (before : W) (x : Result A × W) (log : List Event)
      → op before ≡ x
      → Holds
          (λ a w. (w0 w1 : W) × (op w0 ≡ (ok a, w1)))
          Any
          (x.0, record { outside = x.1; log = log })
  answered_run op before (ok a, w) log e = (before, w, e)
  answered_run op before (err x, w) log e = tt

  -- What the host returned.
  pub answered :
      {A : Type 0} (op : W → Result A × W)
      → Ensures Any (silent op) (λ a w. (w0 w1 : W) × (op w0 ≡ (ok a, w1))) Any
  unfolding silent
  answered op = record { run = λ w p. answered_run op w.outside (op w.outside) w.log refl }

  module _ {A : Type 0} (Q : A → World W Event → Type 0) (E : World W Event → Type 0) where
    witnessed_run :
        (m : M W Event A) (before : World W Event) (x : Result A × World W Event)
        → m before ≡ x
        → Holds Q E x
        → Holds (λ a w. Q a w × ((w0 w1 : World W Event) × (m w0 ≡ (ok a, w1)))) E x
    witnessed_run m before (ok a, w) e q = (q, (before, w, e))
    witnessed_run m before (err x, w) e q = q

  module _ {A : Type 0} {P : World W Event → Type 0} {Q : A → World W Event → Type 0}
      {E : World W Event → Type 0} where
    -- What a computation returned, for later.
    pub witnessed :
        {m : M W Event A}
        → Ensures P m Q E
        → Ensures P m (λ a w. Q a w × ((w0 w1 : World W Event) × (m w0 ≡ (ok a, w1)))) E
    witnessed {m} h = record { run = λ w p. witnessed_run Q E m w (m w) refl (h.run w p) }
