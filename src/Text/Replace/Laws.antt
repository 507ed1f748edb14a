-- ===== src/Text/Replace/Laws.antt =====
-- What `replace` and `splice` do to a text by the occurrences of `old` in it.
use mathodology.Prelude.{
  ℕ, zero, suc, ◌+◌, ◌≡◌, refl, sym, ap, ◌∙◌, [], ◌∷◌, ◌++◌, true, false, length, take, drop, arith,
  Bool-cases, true-false, inl, inr,
}
use mathodology.Text.{Text, truthy}
use mathodology.Text.Replace.{
  starts, tail_length, count_from, occurrences, replace_from, replace, find, splice,
}

drop-nil : (k : ℕ) → ◌≡◌ {A = Text} (drop k []) []
drop-nil zero = refl
drop-nil (suc k) = refl

count-found :
    (old : Text) (c : ℕ) (t : Text)
    → starts old (c ∷ t) ≡ true
    → count_from old 0 (c ∷ t) ≡ suc (count_from old (tail_length old) t)
unfolding count_from
count-found old c t e = rw e refl

count-passed :
    (old : Text) (c : ℕ) (t : Text)
    → starts old (c ∷ t) ≡ false
    → count_from old 0 (c ∷ t) ≡ count_from old 0 t
unfolding count_from
count-passed old c t e = rw e refl

-- A text without an occurrence is kept, past what is skipped.
replace_from-absent :
    (old new : Text) (k : ℕ) (t : Text)
    → count_from old k t ≡ 0
    → replace_from old new k t ≡ drop k t
unfolding count_from replace_from
replace_from-absent old new k [] h = sym (drop-nil k)
replace_from-absent old new (suc k) (c ∷ t) h = replace_from-absent old new k t h
replace_from-absent old new zero (c ∷ t) h = elim (Bool-cases (starts old (c ∷ t))) [
  | inl e ↦ absurd (omega (arith, h, count-found old c t e))
  | inr e ↦
      rw e (ap (λ r. c ∷ r) (replace_from-absent old new 0 t (sym (count-passed old c t e) ∙ h)))
]

zero_plus : (n : ℕ) → 0 + n ≡ n
zero_plus n = omega arith

suc_plus : (m n : ℕ) → suc m + n ≡ suc (m + n)
suc_plus m n = omega arith

one_left : {m n : ℕ} → m ≡ suc n → m ≡ 1 → n ≡ 0
one_left p q = omega (arith, p, q)

-- With exactly one occurrence, cutting it out where it is found replaces it.
splice-find_from :
    (c : ℕ) (old new t : Text)
    → count_from (c ∷ old) 0 t ≡ 1
    → splice (find (c ∷ old) t) (c ∷ old) new t ≡ replace_from (c ∷ old) new 0 t
unfolding count_from replace_from find splice
splice-find_from c old new [] h = absurd (omega (arith, h))
splice-find_from c old new (d ∷ t) h = elim (Bool-cases (starts (c ∷ old) (d ∷ t))) [
  | inl e ↦ rw e (
      ap (λ r. new ++ r)
        (ap (λ n. drop n (d ∷ t)) (zero_plus (suc (length old)))
          ∙ sym (
              replace_from-absent (c ∷ old) new (length old) t
                (one_left (count-found (c ∷ old) d t e) h))))
  | inr e ↦ rw e (
      ap (λ r. d ∷ r)
        (ap (λ n. take (find (c ∷ old) t) t ++ (new ++ drop n (d ∷ t)))
            (suc_plus (find (c ∷ old) t) (suc (length old)))
          ∙ splice-find_from c old new t (sym (count-passed (c ∷ old) d t e) ∙ h)))
]

pub replace-absent : (old new t : Text) → occurrences old t ≡ 0 → replace old new t ≡ t
unfolding occurrences replace
replace-absent old new t h = replace_from-absent old new 0 t h

pub splice-find :
    (old new t : Text)
    → truthy old ≡ true
    → occurrences old t ≡ 1
    → splice (find old t) old new t ≡ replace old new t
unfolding occurrences replace
splice-find [] new t h once = absurd (true-false (sym h))
splice-find (c ∷ old) new t h once = splice-find_from c old new t once

pub occurrences-nil : (old : Text) → occurrences old [] ≡ 0
unfolding occurrences count_from
occurrences-nil old = refl
