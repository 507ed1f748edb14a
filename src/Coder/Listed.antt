-- ===== src/Coder/Listed.antt =====
-- agents/coder.py: the figure paths of a run's output.
use mathodology.Prelude.{
  ◌≡◌, refl, sym, Bool, true, false, ◌||◌, ◌⊎◌, inl, inr, true-false, List, [], ◌∷◌, ◌++◌,
  if◌then◌else◌, All,
}
use mathodology.Text.{Text, ◌=ₜ◌}
use mathodology.Contracts.Artifacts.{Figure}
use mathodology.Fence.RoundTrip.{=ₜ_refl}
use mathodology.Coder.{member, add_paths}
use mathodology.Coder.Work.{pick}

or_true : (a b : Bool) → (a || b) ≡ true → (a ≡ true) ⊎ (b ≡ true)
or_true true b h = inl refl
or_true false b h = inr h

or_true_right : (a : Bool) → (a || true) ≡ true
or_true_right true = refl
or_true_right false = refl

member_append : (t : Text) (ts us : List Text) → member t ts ≡ true → member t (ts ++ us) ≡ true
member_append t [] us h = absurd (true-false (sym h))
member_append t (v ∷ ts) us h = elim (or_true (v =ₜ t) (member t ts) h) [
  | inl e ↦ rw e refl
  | inr e ↦ rw (member_append t ts us e, or_true_right (v =ₜ t)) refl
]

member_snoc : (t : Text) (ts : List Text) → member t (ts ++ t ∷ []) ≡ true
member_snoc t [] = rw (=ₜ_refl t) refl
member_snoc t (v ∷ ts) = rw (member_snoc t ts, or_true_right (v =ₜ t)) refl

-- What is listed stays listed.
add_paths_keep :
    {Num : Type 0} (t : Text) (paths : List Text) (fs : List (Figure Num))
    → member t paths ≡ true
    → member t (add_paths paths fs) ≡ true
add_paths_keep t paths [] h = h
add_paths_keep t paths (f ∷ fs) h =
    add_paths_keep t (if member f.path_png paths then paths else paths ++ f.path_png ∷ []) fs (
      pick (member f.path_png paths) paths (paths ++ f.path_png ∷ []) (λ ps. member t ps ≡ true)
        (λ _. h) (λ _. member_append t paths _ h))

-- Each figure's path is listed.
pub add_paths_all :
    {Num : Type 0} (paths : List Text) (fs : List (Figure Num))
    → All (λ f. member f.path_png (add_paths paths fs) ≡ true) fs
add_paths_all paths [] = tt
add_paths_all paths (f ∷ fs) = (
  add_paths_keep f.path_png _ fs (
      pick (member f.path_png paths) paths (paths ++ f.path_png ∷ [])
        (λ ps. member f.path_png ps ≡ true) (λ h. h) (λ _. member_snoc f.path_png paths)),
  add_paths_all (if member f.path_png paths then paths else paths ++ f.path_png ∷ []) fs,
)
