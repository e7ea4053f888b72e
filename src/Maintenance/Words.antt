-- ===== src/Maintenance/Words.antt =====
-- The order of two entries by their five words, independently of how `entry_order` finds it.
use git_vws.Maintenance.Report.{MaintenanceEntry}
use git_vws.Maintenance.Output.{
  Ordering, less, equal, greater, then_with, compare_nat, compare, entry_order, is_greater,
}
use git_vws.Base.{
  ℕ, ◌<◌, ◌≡◌, refl, sym, ap, ◌⊎◌, inl, inr, Bool, true, false, List, [], ◌∷◌, arith, ltb,
  if◌then◌else◌, nat_Eq, string_Eq, bytes_Eq, option_bytes_Eq, option_nat_Eq, Bytes,
}

-- The lexicographic order: at the first place where the lists differ, the one comes before the other,
-- or the one has ended there.
unfoldable pub Lower : {A : Type 0} → (A → A → Type 0) → List A → List A → Type 0
Lower Less [] [] = ⊥
Lower Less [] (y ∷ ys) = Unit {0}
Lower Less (x ∷ xs) [] = ⊥
Lower Less (x ∷ xs) (y ∷ ys) = Less x y ⊎ ((x ≡ y) × Lower Less xs ys)

abbrev pub LowerBytes : Bytes → Bytes → Type 0
LowerBytes = Lower (λ a b. a < b)

-- The words of an entry, in the order in which they count.
abbrev pub words : MaintenanceEntry → List Bytes
words e = e.scope ∷ e.record_name ∷ e.path_name ∷ e.state ∷ e.code ∷ []

-- The one comes before the other, or both have the same words.
abbrev pub InOrder : MaintenanceEntry → MaintenanceEntry → Type 0
InOrder a b = Lower LowerBytes (words a) (words b) ⊎ (words a ≡ words b)

-- What each answer of a comparison means.
unfoldable Means : Type 0 → Type 0 → Type 0 → Ordering → Type 0
Means Below Same Above less = Below
Means Below Same Above equal = Same
Means Below Same Above greater = Above

module _ {A : Type 0} (Less : A → A → Type 0) where
  steps :
      (x y : A) (xs ys : List A) (first rest : Ordering)
      → Means (Less x y) (x ≡ y) (Less y x) first
      → Means (Lower Less xs ys) (xs ≡ ys) (Lower Less ys xs) rest
      → Means
          (Lower Less (x ∷ xs) (y ∷ ys))
          (x ∷ xs ≡ y ∷ ys)
          (Lower Less (y ∷ ys) (x ∷ xs))
          (then_with first rest)
  unfolding Means Lower then_with
  steps x y xs ys less rest p q = inl p
  steps x y xs ys greater rest p q = inl p
  steps x y xs ys equal less p q = inr (p, q)
  steps x y xs ys equal equal p q = cc (p, q)
  steps x y xs ys equal greater p q = inr (sym p, q)

  last_step :
      (x y : A) (first : Ordering)
      → Means (Less x y) (x ≡ y) (Less y x) first
      → Means (Lower Less (x ∷ []) (y ∷ [])) (x ∷ [] ≡ y ∷ []) (Lower Less (y ∷ []) (x ∷ [])) first
  unfolding Means Lower
  last_step x y less p = inl p
  last_step x y greater p = inl p
  last_step x y equal p = ap (λ a. a ∷ []) p

compare_nat-Means : (a b : ℕ) → Means (a < b) (a ≡ b) (b < a) (compare_nat a b)
unfolding Means
compare_nat-Means a b = tested (ltb a b) (ltb b a) below above neither
  where
    below : ltb a b ≡ true → a < b
    below = ground arith

    above : ltb b a ≡ true → b < a
    above = ground arith

    neither : ltb a b ≡ false → ltb b a ≡ false → a ≡ b
    neither = ground arith

    tested :
        (p q : Bool)
        → (p ≡ true → a < b)
        → (q ≡ true → b < a)
        → (p ≡ false → q ≡ false → a ≡ b)
        → Means (a < b) (a ≡ b) (b < a) (if p then less else if q then greater else equal)
    tested true q f g h = f refl
    tested false true f g h = g refl
    tested false false f g h = h refl refl

compare-Means :
    (left right : Bytes)
    → Means (LowerBytes left right) (left ≡ right) (LowerBytes right left) (compare left right)
unfolding Means Lower compare
compare-Means [] [] = refl
compare-Means [] (b ∷ bs) = tt
compare-Means (a ∷ more) [] = tt
compare-Means (a ∷ more) (b ∷ bs) =
    steps (λ a b. a < b) a b more bs (compare_nat a b) (compare more bs) (compare_nat-Means a b)
      (compare-Means more bs)

entry_order-Means :
    (a b : MaintenanceEntry)
    → Means
        (Lower LowerBytes (words a) (words b))
        (words a ≡ words b)
        (Lower LowerBytes (words b) (words a))
        (entry_order a b)
unfolding entry_order
entry_order-Means a b = steps LowerBytes _ _ _ _ _ _ (compare-Means a.scope b.scope) (
    steps LowerBytes _ _ _ _ _ _ (compare-Means a.record_name b.record_name) (
      steps LowerBytes _ _ _ _ _ _ (compare-Means a.path_name b.path_name) (
        steps LowerBytes _ _ _ _ _ _ (compare-Means a.state b.state)
          (last_step LowerBytes _ _ _ (compare-Means a.code b.code)))))

pub entry_order-InOrder :
    (a b : MaintenanceEntry) → is_greater (entry_order a b) ≡ false → InOrder a b
unfolding Means
entry_order-InOrder a b = tested (entry_order a b) (entry_order-Means a b)
  where
    tested :
        (o : Ordering)
        → Means
            (Lower LowerBytes (words a) (words b))
            (words a ≡ words b)
            (Lower LowerBytes (words b) (words a))
            o
        → is_greater o ≡ false
        → InOrder a b
    tested less p e = inl p
    tested equal p e = inr p
    tested greater p e = absurd (cc)
