-- ===== src/Audit/Orphans.antt =====
-- audit.py: when a figure of the Coder is an orphan.
use mathodology.Prelude.{
  ◌≡◌, refl, ap, ◌∙◌, ◌↔◌, inl, inr, Bool, true, not, List, [], ◌∷◌, arith, keep, All, Bool-cases,
}
use mathodology.Text.{Text, ◌=ₜ◌}
use mathodology.Audit.{distinct, member, orphans_of}

=ₜ-eq : (s t : Text) → (s =ₜ t) ≡ true → s ≡ t
=ₜ-eq [] [] e = refl
=ₜ-eq [] (d ∷ t) e = cc
=ₜ-eq (c ∷ s) [] e = cc
=ₜ-eq (c ∷ s) (d ∷ t) e = ground (arith, =ₜ-eq s t)

-- What holds of a list of texts holds of a member of it.
All-member :
    (p : Text → Bool) (x : Text) (xs : List Text)
    → All (λ y. p y ≡ true) xs
    → member x xs ≡ true
    → p x ≡ true
All-member p x [] h e = cc
All-member p x (y ∷ ys) h e = elim (Bool-cases (x =ₜ y)) [
  | inl here ↦ ap p (=ₜ-eq x y here) ∙ h.0
  | inr there ↦ All-member p x ys h.1 (ground arith)
]

All-distinct :
    (p : Text → Bool) (xs : List Text)
    → All (λ x. p x ≡ true) (distinct xs)
    → All (λ x. p x ≡ true) xs
All-distinct p [] h = tt
All-distinct p (x ∷ xs) h = elim (Bool-cases (member x (distinct xs))) [
  | inl dup ↦
      let rest : All (λ y. p y ≡ true) (distinct xs) = rw dup at h in
      (All-member p x (distinct xs) rest dup, All-distinct p xs rest)
  | inr new ↦
      let both : All (λ y. p y ≡ true) (x ∷ distinct xs) = rw new at h in
      (both.0, All-distinct p xs both.1)
]

distinct-All :
    (p : Text → Bool) (xs : List Text)
    → All (λ x. p x ≡ true) xs
    → All (λ x. p x ≡ true) (distinct xs)
distinct-All p [] h = tt
distinct-All p (x ∷ xs) h = elim (Bool-cases (member x (distinct xs))) [
  | inl dup ↦ rw dup (distinct-All p xs h.1)
  | inr new ↦ rw new (h.0, distinct-All p xs h.1)
]

keep_none :
    (p : Text → Bool) (xs : List Text) → (keep (λ x. not (p x)) xs ≡ []) ↔ All (λ x. p x ≡ true) xs
keep_none p [] = (λ e. tt, λ h. refl)
keep_none p (x ∷ xs) = (λ e. ground (arith, keep_none p xs), λ h. ground (arith, keep_none p xs))

-- No figure is an orphan exactly if every declared id is among the embedded ones.
pub orphans_of-nil :
    (declared embedded : List Text)
    → (orphans_of declared embedded ≡ []) ↔ All (λ id. member id embedded ≡ true) declared
unfolding orphans_of
orphans_of-nil declared embedded = (
  λ e.
      All-distinct (λ id. member id embedded) declared
        ((keep_none (λ id. member id embedded) (distinct declared)).0 e),
  λ h.
      (keep_none (λ id. member id embedded) (distinct declared)).1
        (distinct-All (λ id. member id embedded) declared h),
)
