-- ===== src/Session/Discard/SafeName.antt =====
-- What `git_safe_unborn_head` promises of a branch's name.
use git_vws.Session.Discard.Outputs.{git_safe_unborn_head, is_safe_character, is_safe_component}
use git_vws.Base.{
  ℕ, ◌≡◌, refl, ap, ◌⊎◌, inl, inr, Bool, true, false, ◌&&◌, ◌||◌, not, [], ◌==◌, ==_iff, nat_Eq,
  string_Eq, bytes_Eq, option_bytes_Eq, option_nat_Eq, All, all→All, Bytes, codes, is_empty,
  is_alphanumeric, contains, starts_with, ends_with, includes, split,
}

pub both_true : (a b : Bool) → (a && b) ≡ true → (a ≡ true) × (b ≡ true)
both_true true b h = (refl, h)
both_true false b h = absurd (cc)

-- A part of a branch's name between slashes: there is one, and it neither begins nor ends with a dot nor
-- ends in `.lock`.
pub record SafePart (part : Bytes) : Type 0 where
  pub filled_in : ¬ (part ≡ [])
  pub undotted : starts_with (codes ".") part ≡ false
  pub unended : ends_with (codes ".") part ≡ false
  pub unlocked : ends_with (codes ".lock") part ≡ false

-- The characters of a branch's name.
unfoldable pub Plain : ℕ → Type 0
Plain c = (is_alphanumeric c ≡ true) ⊎ ((c ≡ b'.') ⊎ ((c ≡ b'_') ⊎ ((c ≡ b'-') ⊎ (c ≡ b'/'))))

-- What a name that is let through satisfies.
pub record Safe (target head : Bytes) : Type 0 where
  pub one_line : (contains 10 head ≡ false) × (contains 13 head ≡ false)
  pub filled_in : ¬ (head ≡ [])
  pub not_target : ¬ (head ≡ target)
  pub relative : starts_with (codes "/") head ≡ false
  pub no_option : starts_with (codes "-") head ≡ false
  pub closed : ends_with (codes "/") head ≡ false
  pub no_range : includes (codes "..") head ≡ false
  pub no_gap : includes (codes "//") head ≡ false
  pub plain : All Plain head
  pub parts : All SafePart (split b'/' head)

negated : (b : Bool) → not b ≡ true → b ≡ false
negated false e = refl
negated true e = absurd (cc)

neither : (a b : Bool) → not (a || b) ≡ true → (a ≡ false) × (b ≡ false)
neither false false e = (refl, refl)
neither true b e = absurd (cc)
neither false true e = absurd (cc)

not_empty : (s : Bytes) → is_empty s ≡ false → ¬ (s ≡ [])
not_empty s e p = absurd (cc (e, ap is_empty p))

different : (a b : Bytes) → (a == b) ≡ false → ¬ (a ≡ b)
different a b e p = absurd (cc (e, (==_iff a b).1 p))

is_safe_character_sound : (c : ℕ) → is_safe_character c ≡ true → Plain c
unfolding is_safe_character Plain
is_safe_character_sound c =
    tested (is_alphanumeric c) (c == b'.') (c == b'_') (c == b'-') (c == b'/') refl
      (==_iff c b'.').0 (==_iff c b'_').0 (==_iff c b'-').0 (==_iff c b'/').0
  where
    tested :
        (a p q r s : Bool) {P Q R S : Type 0}
        → is_alphanumeric c ≡ a
        → (p ≡ true → P)
        → (q ≡ true → Q)
        → (r ≡ true → R)
        → (s ≡ true → S)
        → (a || p || q || r || s) ≡ true
        → (is_alphanumeric c ≡ true) ⊎ (P ⊎ (Q ⊎ (R ⊎ S)))
    tested true p q r s k f g h i e = inl k
    tested false true q r s k f g h i e = inr (inl (f refl))
    tested false false true r s k f g h i e = inr (inr (inl (g refl)))
    tested false false false true s k f g h i e = inr (inr (inr (inl (h refl))))
    tested false false false false true k f g h i e = inr (inr (inr (inr (i refl))))
    tested false false false false false k f g h i e = absurd (cc)

is_safe_component_sound : (part : Bytes) → is_safe_component part ≡ true → SafePart part
unfolding is_safe_component
is_safe_component_sound part e =
    let a = both_true _ _ e in
    let b = both_true _ _ a.0 in
    let d = both_true _ _ b.0 in
    record {
      filled_in = not_empty part (negated _ d.0);
      undotted = negated _ d.1;
      unended = negated _ b.1;
      unlocked = negated _ a.1;
    }

pub git_safe_unborn_head_sound :
    (head target : Bytes)
    → (contains 10 head ≡ false) × (contains 13 head ≡ false)
    → git_safe_unborn_head head target ≡ true
    → Safe target head
unfolding git_safe_unborn_head
git_safe_unborn_head_sound head target lines e =
    let a = both_true _ _ e in
    let b = both_true _ _ a.0 in
    let d = both_true _ _ b.0 in
    let f = both_true _ _ d.0 in
    let g = both_true _ _ f.0 in
    let i = both_true _ _ g.0 in
    let j = both_true _ _ i.0 in
    let gaps = neither _ _ d.1 in
    record {
      one_line = lines;
      filled_in = not_empty head (negated _ j.0);
      not_target = different head target (negated _ j.1);
      relative = negated _ i.1;
      no_option = negated _ g.1;
      closed = negated _ f.1;
      no_range = gaps.0;
      no_gap = gaps.1;
      plain = all→All is_safe_character head is_safe_character_sound b.1;
      parts = all→All is_safe_component (split b'/' head) is_safe_component_sound a.1;
    }
