-- ===== src/Coder/Work.antt =====
-- agents/coder.py: how many cells a run executes, and the ids of its figures.
use mathodology.Prelude.{
  ℕ, ◌+◌, ◌≤◌, ◌≡◌, refl, ap, ◌∙◌, Bool, true, false, ◌||◌, List, [], ◌∷◌, ◌++◌, arith, ◌==◌,
  if◌then◌else◌, length, true-false,
}
use mathodology.Text.{Text, ◌=ₜ◌}
use mathodology.Exec.{Error, Result, ok, err, Exec, pure, raise, continue, ◌>>=◌}
use mathodology.Contracts.Artifacts.{Figure}
use mathodology.Coder.{CoderState, member, ids}

-- Either branch of a test, each with what the test says.
pub pick :
    {A : Type 0} (b : Bool) (x y : A) (P : A → Type 0)
    → (b ≡ true → P x)
    → (b ≡ false → P y)
    → P (if b then x else y)
pick true x y P f g = f refl
pick false x y P f g = g refl

-- No text comes twice.
abbrev pub Unique : List Text → Type 0
Unique [] = Unit
Unique (t ∷ ts) = (member t ts ≡ false) × Unique ts

==_comm : (a b : ℕ) → (a == b) ≡ (b == a)
==_comm a b = ground arith

=ₜ_comm : (s t : Text) → (s =ₜ t) ≡ (t =ₜ s)
=ₜ_comm [] [] = refl
=ₜ_comm [] (d ∷ t) = refl
=ₜ_comm (c ∷ s) [] = refl
=ₜ_comm (c ∷ s) (d ∷ t) = rw (==_comm c d, =ₜ_comm s t) refl

or_false : (a b : Bool) → (a || b) ≡ false → (a ≡ false) × (b ≡ false)
or_false true b h = absurd (true-false h)
or_false false b h = (refl, h)

member_snoc :
    (t u : Text) (ts : List Text)
    → member t ts ≡ false
    → (u =ₜ t) ≡ false
    → member t (ts ++ u ∷ []) ≡ false
member_snoc t u [] h e = rw e refl
member_snoc t u (v ∷ ts) h e =
    let (a, b) = or_false (v =ₜ t) (member t ts) h in rw (a, member_snoc t u ts b e) refl

pub snoc-Unique :
    (ts : List Text) (u : Text) → member u ts ≡ false → Unique ts → Unique (ts ++ u ∷ [])
snoc-Unique [] u h d = (refl, tt)
snoc-Unique (t ∷ ts) u h (fresh, d) =
    let (a, b) = or_false (t =ₜ u) (member u ts) h in
    (member_snoc t u ts fresh (=ₜ_comm u t ∙ a), snoc-Unique ts u b d)

pub ids-append :
    {Num : Type 0} (fs : List (Figure Num)) (f : Figure Num)
    → ids (fs ++ f ∷ []) ≡ ids fs ++ f.id ∷ []
ids-append [] f = refl
ids-append (g ∷ fs) f = ap (λ r. g.id ∷ r) (ids-append fs f)

-- At most `n` cells more, and ids that stay unique.
pub record Works {Num W A : Type 0} (n : ℕ) (m : Exec (CoderState Num W) A) : Type 0 where
  pub works_cells : (s : CoderState Num W) → length (m s).1.cells ≤ length s.cells + n
  pub works_ids : (s : CoderState Num W) → Unique (ids s.figures) → Unique (ids (m s).1.figures)

module _ {Num W A : Type 0} where
  pub pure-Works : (n : ℕ) (x : A) → Works {Num = Num} {W = W} n (pure x)
  pure-Works n x = record { works_cells = λ s. omega arith; works_ids = λ s u. u }

  pub raise-Works : (n : ℕ) (e : Error) → Works {Num = Num} {W = W} {A = A} n (raise e)
  raise-Works n e = record { works_cells = λ s. omega arith; works_ids = λ s u. u }

  pub weaken : (m n : ℕ) (k : Exec (CoderState Num W) A) → m ≤ n → Works m k → Works n k
  weaken m n k le h = record {
    works_cells = λ s. omega (arith, le, h.works_cells s);
    works_ids = h.works_ids;
  }

module _ {Num W A B : Type 0} (m n : ℕ) where
  continue_cells :
      (f : A → Exec (CoderState Num W) B)
      → ((x : A) → Works n (f x))
      → (k : ℕ) (r : Result A × CoderState Num W) → length r.1.cells ≤ k + m
      → length (continue f r.0 r.1).1.cells ≤ k + (m + n)
  continue_cells f h k (ok x, s) le = omega (arith, le, (h x).works_cells s)
  continue_cells f h k (err e, s) le = omega (arith, le)

  continue-ids :
      (f : A → Exec (CoderState Num W) B)
      → ((x : A) → Works n (f x))
      → (r : Result A × CoderState Num W) → Unique (ids r.1.figures)
      → Unique (ids (continue f r.0 r.1).1.figures)
  continue-ids f h (ok x, s) u = (h x).works_ids s u
  continue-ids f h (err e, s) u = u

  pub bind-Works :
      (p : Exec (CoderState Num W) A) (f : A → Exec (CoderState Num W) B)
      → Works m p
      → ((x : A) → Works n (f x))
      → Works (m + n) (p >>= f)
  bind-Works p f h g = record {
    works_cells = λ s. continue_cells f g (length s.cells) (p s) (h.works_cells s);
    works_ids = λ s u. continue-ids f g (p s) (h.works_ids s u);
  }

-- A sequence without cells.
pub quiet-Works :
    {Num W A B : Type 0} (p : Exec (CoderState Num W) A) (f : A → Exec (CoderState Num W) B)
    → Works 0 p
    → ((x : A) → Works 0 (f x))
    → Works 0 (p >>= f)
quiet-Works p f h g = weaken (0 + 0) 0 _ (omega arith) (bind-Works 0 0 p f h g)
