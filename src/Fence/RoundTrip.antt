-- ===== src/Fence/RoundTrip.antt =====
-- agents/base.py: what `_strip_json_fence` makes of a fenced reply.
use mathodology.Prelude.{
  ℕ, ◌≡◌, refl, sym, ap, ◌∙◌, true, false, none, some, [], ◌∷◌, ◌++◌, arith, ◌==◌, All, Bool-cases,
  inl, inr, length, length-append, ==_iff, ◌<◌,
}
use mathlib.Core.List.{append_assoc}
use mathodology.Text.{Text, ◌=ₜ◌, is_space, lstrip, rstrip, strip, before, newline}
use mathodology.Fence.{fence, after_newline, before_suffix, before_fence, strip_json_fence}

pub =ₜ_refl : (t : Text) → (t =ₜ t) ≡ true
=ₜ_refl [] = refl
=ₜ_refl (c ∷ t) = rw ((==_iff c c).1 refl, =ₜ_refl t) refl

=ₜ_length : (s t : Text) → length t < length s → (s =ₜ t) ≡ false
=ₜ_length [] t h = absurd (omega (arith, h))
=ₜ_length (c ∷ s) [] h = refl
=ₜ_length (c ∷ s) (d ∷ t) h = elim (Bool-cases (c == d)) [
  | inl e ↦ rw e (=ₜ_length s t (omega (arith, h)))
  | inr e ↦ rw e refl
]

before_suffix-append : (x suffix : Text) → before_suffix suffix (x ++ suffix) ≡ some x
before_suffix-append [] [] = refl
before_suffix-append [] (c ∷ s) = rw (=ₜ_refl (c ∷ s)) refl
before_suffix-append (c ∷ x) suffix =
    rw
      (
        =ₜ_length (c ∷ (x ++ suffix)) suffix (omega (arith, length-append x suffix)),
        before_suffix-append x suffix,
      )
      refl

after_newline-append :
    (lang t : Text)
    → All (λ c. (c == newline) ≡ false) lang
    → after_newline (lang ++ newline ∷ t) ≡ t
after_newline-append [] t h = refl
after_newline-append (c ∷ lang) t h = rw h.0 (after_newline-append lang t h.1)

rstrip-blank : (c : ℕ) (t : Text) → is_space c ≡ true → rstrip (t ++ c ∷ []) ≡ rstrip t
unfolding rstrip
rstrip-blank c [] h = rw h refl
rstrip-blank c (d ∷ t) h = ap (before d) (rstrip-blank c t h)

-- One blank more at the end.
strip-blank : (c : ℕ) (t : Text) → is_space c ≡ true → strip (t ++ c ∷ []) ≡ strip t
unfolding strip lstrip rstrip
strip-blank c [] h = rw h refl
strip-blank c (d ∷ t) h = elim (Bool-cases (is_space d)) [
  | inl e ↦ rw e (strip-blank c t h)
  | inr e ↦ rw e (rstrip-blank c (d ∷ t) h)
]

before-append : (d c : ℕ) (t : Text) → before d (t ++ c ∷ []) ≡ d ∷ (t ++ c ∷ [])
before-append d c [] = refl
before-append d c (e ∷ t) = refl

rstrip-solid : (c : ℕ) (t : Text) → is_space c ≡ false → rstrip (t ++ c ∷ []) ≡ t ++ c ∷ []
unfolding rstrip
rstrip-solid c [] h = rw h refl
rstrip-solid c (d ∷ t) h = ap (before d) (rstrip-solid c t h) ∙ before-append d c t

-- The text ends with the character `c`.
EndsWith : ℕ → Text → Type 0
EndsWith c s = (t : Text) × (s ≡ t ++ c ∷ [])

append-EndsWith : (c : ℕ) (s t : Text) → EndsWith c t → EndsWith c (s ++ t)
unfolding EndsWith
append-EndsWith c s t (u, e) = (s ++ u, ap (λ r. s ++ r) e ∙ sym (append_assoc s u (c ∷ [])))

rstrip-EndsWith : (c : ℕ) (s : Text) → is_space c ≡ false → EndsWith c s → rstrip s ≡ s
unfolding EndsWith
rstrip-EndsWith c s h (t, e) = ap rstrip e ∙ rstrip-solid c t h ∙ sym e

-- A reply in a fence with a tag, the body on lines of its own.
abbrev pub fenced : Text → Text → Text
fenced tag body = fence ++ (tag ++ newline ∷ (body ++ newline ∷ fence))

fenced-EndsWith : (tag body : Text) → EndsWith 96 (fenced tag body)
unfolding EndsWith
fenced-EndsWith tag body = append-EndsWith 96 fence _ (
    append-EndsWith 96 tag _ (
      append-EndsWith 96 (newline ∷ []) _
        (append-EndsWith 96 body _ (newline ∷ 96 ∷ 96 ∷ [], refl))))

strip-fenced : (tag body : Text) → strip (fenced tag body) ≡ fenced tag body
unfolding strip lstrip
strip-fenced tag body = rstrip-EndsWith 96 (fenced tag body) refl (fenced-EndsWith tag body)

tag_dropped :
    (tag body : Text)
    → All (λ c. (c == newline) ≡ false) tag
    → after_newline (fenced tag body) ≡ body ++ newline ∷ fence
tag_dropped tag body h = after_newline-append tag (body ++ newline ∷ fence) h

suffix_dropped : (t r : Text) → before_suffix fence t ≡ some r → before_fence t ≡ r
suffix_dropped t r h = ap (λ o. elim o [ none ↦ t | some rest ↦ rest ]) h

fence_dropped : (body : Text) → before_fence (body ++ newline ∷ fence) ≡ body ++ newline ∷ []
fence_dropped body =
    ap before_fence (sym (append_assoc body (newline ∷ []) fence))
    ∙ suffix_dropped ((body ++ newline ∷ []) ++ fence) (body ++ newline ∷ [])
        (before_suffix-append (body ++ newline ∷ []) fence)

-- Of a reply in a code fence, with a tag on its first line ("json", say, or none) and the body on the
-- lines after it, the body is left without the blanks around it, whatever the body is.
pub strip_json_fence-fenced :
    (tag body : Text)
    → All (λ c. (c == newline) ≡ false) tag
    → strip_json_fence (fenced tag body) ≡ strip body
unfolding strip_json_fence
strip_json_fence-fenced tag body h =
    rw (strip-fenced tag body, tag_dropped tag body h, fence_dropped body)
      (strip-blank newline body refl)
