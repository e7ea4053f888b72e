-- ===== src/Maintenance/Order.antt =====
-- The sort of the entries that `doctor` and `gc` print.
use mathlib.Core.List.{Permᴰ}
use mathlib.Core.List.Permᴰ
use git_vws.Maintenance.Report.{MaintenanceEntry}
use git_vws.Maintenance.Output.{
  Ordering, less, equal, greater, then_with, compare_nat, compare, entry_order, is_greater,
  insert_by, sort_by,
}
use git_vws.Base.{
  ℕ, ◌≡◌, refl, ap, ◌∙◌, Bool, true, false, List, [], ◌∷◌, arith, ltb, if◌then◌else◌, nat_Eq,
  string_Eq, bytes_Eq, option_bytes_Eq, option_nat_Eq, Bytes,
}

-- The order of the other way round.
unfoldable pub reversed : Ordering → Ordering
reversed less = greater
reversed equal = equal
reversed greater = less

reversed-then_with :
    (a b : Ordering) → then_with (reversed a) (reversed b) ≡ reversed (then_with a b)
unfolding reversed then_with
reversed-then_with less b = refl
reversed-then_with equal b = refl
reversed-then_with greater b = refl

compare_nat-reversed : (a b : ℕ) → compare_nat b a ≡ reversed (compare_nat a b)
unfolding reversed
compare_nat-reversed a b = tested (ltb a b) (ltb b a) asymmetric
  where
    asymmetric : ltb a b ≡ true → ltb b a ≡ true → false ≡ true
    asymmetric = ground arith

    tested :
        (p q : Bool)
        → (p ≡ true → q ≡ true → false ≡ true)
        → (if q then less else if p then greater else equal)
          ≡ reversed (if p then less else if q then greater else equal)
    tested true true h = absurd (cc (h refl refl))
    tested true false h = refl
    tested false true h = refl
    tested false false h = refl

reversed-steps :
    (a b : Ordering) {a' b' : Ordering}
    → a' ≡ reversed a
    → b' ≡ reversed b
    → then_with a' b' ≡ reversed (then_with a b)
reversed-steps a b {a'} {b'} p q =
    ap (λ x. then_with x b') p ∙ ap (then_with (reversed a)) q ∙ reversed-then_with a b

compare-reversed : (left right : Bytes) → compare right left ≡ reversed (compare left right)
unfolding compare reversed
compare-reversed [] [] = equal_reversed
  where
    equal_reversed : equal ≡ reversed equal
    equal_reversed = refl
compare-reversed [] (b ∷ bs) = refl
compare-reversed (a ∷ more) [] = refl
compare-reversed (a ∷ more) (b ∷ bs) =
    reversed-steps _ _ (compare_nat-reversed a b) (compare-reversed more bs)

entry_order-reversed :
    (left right : MaintenanceEntry) → entry_order right left ≡ reversed (entry_order left right)
unfolding entry_order
entry_order-reversed left right = reversed-steps _ _ (compare-reversed left.scope right.scope) (
    reversed-steps _ _ (compare-reversed left.record_name right.record_name) (
      reversed-steps _ _ (compare-reversed left.path_name right.path_name) (
        reversed-steps _ _ (compare-reversed left.state right.state)
          (compare-reversed left.code right.code))))

-- No entry is greater than the next one.
unfoldable pub IsSorted : List MaintenanceEntry → Type 0
IsSorted [] = Unit {0}
IsSorted (a ∷ []) = Unit {0}
IsSorted (a ∷ (b ∷ bs)) = (is_greater (entry_order a b) ≡ false) × IsSorted (b ∷ bs)

not_after :
    (a b : MaintenanceEntry)
    → is_greater (entry_order a b) ≡ true
    → is_greater (entry_order b a) ≡ false
unfolding reversed
not_after a b e = ap is_greater (entry_order-reversed a b) ∙ flipped (entry_order a b) e
  where
    flipped : (o : Ordering) → is_greater o ≡ true → is_greater (reversed o) ≡ false
    flipped greater e = refl
    flipped less e = absurd (cc)
    flipped equal e = absurd (cc)

insert_by-IsSorted :
    (a : MaintenanceEntry) (l : List MaintenanceEntry)
    → IsSorted l
    → IsSorted (insert_by entry_order a l)
unfolding insert_by IsSorted
insert_by-IsSorted a [] p = tt
insert_by-IsSorted a (b ∷ []) p = placed (is_greater (entry_order a b)) refl
  where
    placed :
        (x : Bool)
        → is_greater (entry_order a b) ≡ x
        → IsSorted (if x then b ∷ (a ∷ []) else a ∷ (b ∷ []))
    placed true e = (not_after a b e, tt)
    placed false e = (e, tt)
insert_by-IsSorted a (b ∷ (c ∷ cs)) p =
    placed (is_greater (entry_order a b)) (is_greater (entry_order a c)) refl
      (insert_by-IsSorted a (c ∷ cs) p.1)
  where
    placed :
        (x y : Bool)
        → is_greater (entry_order a b) ≡ x
        → IsSorted (if y then c ∷ insert_by entry_order a cs else a ∷ (c ∷ cs))
        → IsSorted (
            if x
            then b ∷ (if y then c ∷ insert_by entry_order a cs else a ∷ (c ∷ cs))
            else a ∷ (b ∷ (c ∷ cs)))
    placed false y e q = (e, p)
    placed true true e q = (p.0, q)
    placed true false e q = (not_after a b e, q)

module _ {A : Type 0} (order : A → A → Ordering) where
  insert_by-Perm : (a : A) (l : List A) → Permᴰ (insert_by order a l) (a ∷ l)
  unfolding insert_by
  insert_by-Perm a [] = Permᴰ.refl _
  insert_by-Perm a (b ∷ bs) = placed (is_greater (order a b)) (insert_by-Perm a bs)
    where
      placed :
          (x : Bool)
          → Permᴰ (insert_by order a bs) (a ∷ bs)
          → Permᴰ (if x then b ∷ insert_by order a bs else a ∷ (b ∷ bs)) (a ∷ (b ∷ bs))
      placed true p = Permᴰ.trans (Permᴰ.cons refl p) (Permᴰ.swap refl refl)
      placed false p = Permᴰ.refl _

  pub sort_by-Perm : (l : List A) → Permᴰ (sort_by order l) l
  unfolding sort_by
  sort_by-Perm [] = Permᴰ.refl _
  sort_by-Perm (a ∷ more) = Permᴰ.trans (insert_by-Perm a _) (Permᴰ.cons refl (sort_by-Perm more))

pub sorted : (l : List MaintenanceEntry) → IsSorted (sort_by entry_order l)
unfolding sort_by IsSorted
sorted [] = tt
sorted (a ∷ more) = insert_by-IsSorted a _ (sorted more)
