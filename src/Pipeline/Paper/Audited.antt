-- ===== src/Pipeline/Paper/Audited.antt =====
-- pipeline.py and audit.py: the audit's search for embedded figures reads back the images that
-- `_substitute_figure_placeholders` writes.
use mathodology.Prelude.{
  ℕ, ◌+◌, ◌-◌, ◌≡◌, ◌≢◌, refl, ap, sym, ◌∙◌, false, not, Option, none, some, List, [], ◌∷◌, ◌++◌,
  arith, ◌==◌, length, length-append, All,
}
use mathlib.Core.List.{append_assoc}
use mathodology.Text.{Text, text, newline}
use mathodology.Text.Match.{span}
use mathodology.Contracts.Artifacts.{Figure}
use mathodology.Audit.{path_of, embed_after, embed_at, embeds}
use mathodology.Pipeline.Paper.{by_id, image, repl, substitute}
use mathodology.Pipeline.Paper.Embedding.{
  Piece, prose, placed, written, shown, IsProper, substitute-written,
}

-- The character does not occur in the text.
abbrev pub Without : ℕ → Text → Type 0
Without d t = All (λ c. (c == d) ≡ false) t

-- A figure that is stored under figures/, with a caption that has no `]` and a name that has no `)`.
pub record IsStored {Num : Type 0} (f : Figure Num) : Type 0 where
  pub file : Text
  pub path : f.path_png ≡ text "figures/" ++ file
  pub named : file ≢ []
  pub no_paren : Without 41 file
  pub no_bracket : Without 93 f.caption

span-until :
    (d : ℕ) (t rest : Text)
    → Without d t
    → span (λ c. not (c == d)) (t ++ (d ∷ rest)) ≡ (t, d ∷ rest)
span-until d [] rest h = ground arith
span-until d (c ∷ t) rest h = rw (h.0, span-until d t rest h.1)

skips : (xs rest : Text) → embeds (length xs) (xs ++ rest) ≡ embeds 0 rest
unfolding embeds
skips [] rest = refl
skips (x ∷ xs) rest = skips xs rest

-- The first step, by what begins at the first character.
abbrev taken : Text → Option (Text × ℕ) → List Text
taken t none = embeds 0 t
taken t (some (path, n)) = path ∷ embeds (n - 1) t

taken_lem :
    (t : Text) (o : Option (Text × ℕ))
    → (elim o [ none ↦ embeds 0 t | some (path, n) ↦ path ∷ embeds (n - 1) t ]) ≡ taken t o
taken_lem t none = refl
taken_lem t (some (path, n)) = refl

embeds_step : (c : ℕ) (t : Text) → embeds 0 (c ∷ t) ≡ taken t (embed_at (c ∷ t))
unfolding embeds
embeds_step c t = taken_lem t (embed_at (c ∷ t))

no_embed : (c : ℕ) (t : Text) → (c == 33) ≡ false → embed_at (c ∷ t) ≡ none
no_embed c t h = ground arith

embeds-prose : (t rest : Text) → Without 33 t → embeds 0 (t ++ rest) ≡ embeds 0 rest
embeds-prose [] rest h = refl
embeds-prose (c ∷ t) rest h =
    embeds_step c (t ++ rest)
    ∙ ap (taken (t ++ rest)) (no_embed c (t ++ rest) h.0)
    ∙ embeds-prose t rest h.1

-- An image without the blank lines and the `!`, and what follows it.
abbrev bracketed : Text → Text → Text → Text
bracketed caption file rest = 91 ∷ (caption ++ (text "](figures/" ++ (file ++ (41 ∷ rest))))

path_there : (file rest : Text) → file ≢ [] → path_of (file, 41 ∷ rest) ≡ some file
path_there [] rest h = absurd (h refl)
path_there (c ∷ file) rest h = refl

-- What a match comes to, by the path that was found.
abbrev measured : Text → Option Text → Option (Text × ℕ)
measured alt none = none
measured alt (some path) = some (path, 2 + length alt + 10 + length path + 1)

measured_lem :
    (alt : Text) (o : Option Text)
    → (elim o [ none ↦ none | some path ↦ some (path, 2 + length alt + 10 + length path + 1) ])
      ≡ measured alt o
measured_lem alt none = refl
measured_lem alt (some path) = refl

embed_there :
    (caption file rest : Text)
    → Without 93 caption
    → file ≢ []
    → Without 41 file
    → embed_at (33 ∷ bracketed caption file rest)
      ≡ some (file, 2 + length caption + 10 + length file + 1)
embed_there caption file rest no_bracket named no_paren =
    ap embed_after
      (span-until 93 caption (40 ∷ (text "figures/" ++ (file ++ (41 ∷ rest)))) no_bracket)
    ∙ measured_lem caption (path_of (span (λ c. not (c == 41)) (file ++ (41 ∷ rest))))
    ∙ ap (λ x. measured caption (path_of x)) (span-until 41 file rest no_paren)
    ∙ ap (measured caption) (path_there file rest named)

abbrev whole_image : Text → Text → Text
whole_image caption file = 91 ∷ (caption ++ (text "](figures/" ++ (file ++ (41 ∷ []))))

past_image :
    (caption file rest : Text)
    → embeds (2 + length caption + 10 + length file + 1 - 1) (bracketed caption file rest)
      ≡ embeds 0 rest
past_image caption file rest =
    ap (λ n. embeds n (bracketed caption file rest)) (sym counted)
    ∙ ap (embeds (length (whole_image caption file))) (sym regrouped)
    ∙ skips (whole_image caption file) rest
  where
    counted : length (whole_image caption file) ≡ 2 + length caption + 10 + length file + 1 - 1
    counted = omega (
      arith,
      length-append caption (text "](figures/" ++ (file ++ (41 ∷ []))),
      length-append file (41 ∷ []),
    )

    regrouped : whole_image caption file ++ rest ≡ bracketed caption file rest
    regrouped =
        ap (λ x. 91 ∷ x)
          (append_assoc caption (text "](figures/" ++ (file ++ (41 ∷ []))) rest
            ∙ ap (λ x. caption ++ (text "](figures/" ++ x)) (append_assoc file (41 ∷ []) rest))

embeds-bracketed :
    (caption file rest : Text)
    → Without 93 caption
    → file ≢ []
    → Without 41 file
    → embeds 0 (33 ∷ bracketed caption file rest) ≡ file ∷ embeds 0 rest
embeds-bracketed caption file rest no_bracket named no_paren =
    embeds_step 33 (bracketed caption file rest)
    ∙ ap (taken (bracketed caption file rest))
        (embed_there caption file rest no_bracket named no_paren)
    ∙ ap (λ x. file ∷ x) (past_image caption file rest)

module _ {Num : Type 0} where
  image_lem :
      (f : Figure Num) (stored : IsStored f) (rest : Text)
      → image f ++ rest
        ≡ newline ∷ newline ∷ 33 ∷ bracketed f.caption stored.file (newline ∷ newline ∷ rest)
  image_lem f stored rest =
      ap (λ x. newline ∷ newline ∷ 33 ∷ 91 ∷ x)
        (append_assoc f.caption (text "](" ++ (f.path_png ++ (text ")" ++ newline ∷ newline ∷ [])))
            rest
          ∙ ap (λ x. f.caption ++ (text "](" ++ x))
              (append_assoc f.path_png (text ")" ++ newline ∷ newline ∷ []) rest
                ∙ ap (λ x. x ++ (41 ∷ newline ∷ newline ∷ rest)) stored.path))

  embeds-image :
      (f : Figure Num) (stored : IsStored f) (rest : Text)
      → embeds 0 (image f ++ rest) ≡ stored.file ∷ embeds 0 rest
  embeds-image f stored rest =
      ap (embeds 0) (image_lem f stored rest)
      ∙ embeds-prose (newline ∷ newline ∷ []) _ (refl, (refl, tt))
      ∙ embeds-bracketed f.caption stored.file (newline ∷ newline ∷ rest) stored.no_bracket
          stored.named stored.no_paren
      ∙ ap (λ x. stored.file ∷ x) (embeds-prose (newline ∷ newline ∷ []) rest (refl, (refl, tt)))

  -- A piece that the audit can read: a text without `!`, or a placeholder of a figure that is
  -- there and stored.
  pub data IsReadable (figures : List (Figure Num)) : Piece → Type 0 where
    plain_text : {t : Text} → Without 33 t → IsReadable figures (prose t)
    known :
        {id : Text}
        → (f : Figure Num) → by_id figures id ≡ some f
        → IsStored f
        → IsReadable figures (placed id)

  -- The files of the figures that are placed, in order.
  abbrev pub files :
      (figures : List (Figure Num)) (ps : List Piece) → All (IsReadable figures) ps → List Text
  files figures [] h = []
  files figures (prose t ∷ ps) (plain_text w, h) = files figures ps h
  files figures (placed id ∷ ps) (known f there stored, h) = stored.file ∷ files figures ps h

  embeds-shown :
      (figures : List (Figure Num)) (ps : List Piece) (h : All (IsReadable figures) ps)
      → embeds 0 (shown figures ps) ≡ files figures ps h
  unfolding embeds
  embeds-shown figures [] h = refl
  embeds-shown figures (prose t ∷ ps) (plain_text w, h) =
      embeds-prose t (shown figures ps) w ∙ embeds-shown figures ps h
  embeds-shown figures (placed id ∷ ps) (known f there stored, h) =
      ap (λ o. embeds 0 (repl o ++ shown figures ps)) there
      ∙ embeds-image f stored (shown figures ps)
      ∙ ap (λ x. stored.file ∷ x) (embeds-shown figures ps h)

  -- In a body of texts that have neither `[` nor `!` and of placeholders of figures that are there,
  -- stored under figures/ by a name without `)`, with captions without `]`, the audit finds after
  -- the substitution exactly the files of the placed figures, in their order.
  pub embeds-substitute :
      (figures : List (Figure Num)) (ps : List Piece) (h : All (IsReadable figures) ps)
      → All IsProper ps
      → embeds 0 (substitute figures (written ps)) ≡ files figures ps h
  embeds-substitute figures ps h proper =
      ap (embeds 0) (substitute-written figures ps proper) ∙ embeds-shown figures ps h
