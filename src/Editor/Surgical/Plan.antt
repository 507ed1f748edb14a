-- ===== src/Editor/Surgical/Plan.antt =====
-- editor_tools/tools.py: what the checks of `SurgicalEditTool` let through.
use mathodology.Prelude.{
  ◌≡◌, refl, ap, subst, ◌∙◌, Bool, true, false, not, ◌&&◌, Option, none, some, List, [], ◌∷◌, keep,
  ltb, ◌==◌,
}
use mathodology.Text.{Text, text, ◌=ₜ◌}
use mathodology.Editor.Args.{Args, Value, arg, as_string, non_empty, truth_of}
use mathodology.Editor.Meta.{Meta}
use mathodology.Editor.Targets.{Target, editable_targets, in_scope, hits_of, total}
use mathodology.Editor.Surgical.{
  Checked, Refusal, refused, passed, ◌>>=◌, ◌>>◌, require, forbid, Edit, known_scope, titled_scope,
  scope, plan, no_match, not_unique, with_hits, with_targets, with_texts, with_old,
}

-- The labels that the argument `section_title` lets through.
unfoldable pub inside : Value → Text → Bool
inside (Value.string title) label = in_scope title label
inside Value.null label = true
inside (Value.truth b) label = true
inside (Value.integer i) label = true
inside (Value.opaque b r i) label = true

-- What holds of an edit that passed the checks.
pub record Planned (args : Args) (meta : Meta) (e : Edit) : Type 0 where
  pub old_given : non_empty (as_string (arg (text "old_text") args)) ≡ some e.old_text
  pub new_given : as_string (arg (text "new_text") args) ≡ some e.new_text
  pub all_given : truth_of (arg (text "replace_all") args) ≡ e.replace_all
  pub changes : (e.old_text =ₜ e.new_text) ≡ false
  pub hits_found :
      hits_of e.old_text
        (keep (λ t. inside (arg (text "section_title") args) t.label) (editable_targets meta))
      ≡ e.hits
  pub some_hit : (total e.hits == 0) ≡ false
  pub unique : (ltb 1 (total e.hits) && not e.replace_all) ≡ false

refused_passed : {A : Type 0} {r : Refusal} {a : A} → refused r ≡ passed a → ⊥
refused_passed h = cc

-- A chain of checks that passes, passes each.
require-bind :
    (o : Option Text) (r : Refusal) (f : Text → Checked Edit) (e : Edit)
    → (require o r >>= f) ≡ passed e
    → (t : Text) × (o ≡ some t) × (f t ≡ passed e)
require-bind none r f e h = absurd (refused_passed h)
require-bind (some t) r f e h = (t, refl, h)

forbid-bind :
    (b : Bool) (r : Refusal) (k : Checked Edit) (e : Edit)
    → (forbid b r >> k) ≡ passed e
    → (b ≡ false) × (k ≡ passed e)
forbid-bind true r k e h = absurd (refused_passed h)
forbid-bind false r k e h = (refl, h)

passed_injective : {d e : Edit} → passed d ≡ passed e → d ≡ e
passed_injective h = cc

keep_all : (ts : List Target) → keep (λ t. true) ts ≡ ts
keep_all [] = refl
keep_all (t ∷ ts) = ap (λ r. t ∷ r) (keep_all ts)

module _ (repr : Text → Text) (args : Args) (meta : Meta) (e : Edit) where
  abbrev every : List Target
  every = editable_targets meta

  -- The edit is over the targets `kept`.
  record Over (old new : Text) (kept : List Target) : Type 0 where
    planned_old : old ≡ e.old_text
    planned_new : new ≡ e.new_text
    planned_all : truth_of (arg (text "replace_all") args) ≡ e.replace_all
    planned_hits : hits_of old kept ≡ e.hits
    some_planned : (total e.hits == 0) ≡ false
    planned_unique : (ltb 1 (total e.hits) && not e.replace_all) ≡ false

  with_hits-passed :
      (d : Edit) (title : Option Text)
      → with_hits repr d title ≡ passed e
      → (d ≡ e)
        × ((total d.hits == 0) ≡ false)
        × ((ltb 1 (total d.hits) && not d.replace_all) ≡ false)
  with_hits-passed d title h =
      let (found, h1) =
        forbid-bind (total d.hits == 0) (no_match repr d.old_text title)
          (forbid (ltb 1 (total d.hits) && not d.replace_all) (not_unique repr d.hits) >> passed d)
          e h in
      let (unique, h2) =
        forbid-bind (ltb 1 (total d.hits) && not d.replace_all) (not_unique repr d.hits) (passed d)
          e h1 in
      (passed_injective h2, found, unique)

  with_targets-Over :
      (old new : Text) (title : Option Text) (kept : List Target)
      → with_targets repr args old new (title, kept) ≡ passed e
      → Over old new kept
  with_targets-Over old new title kept h =
      let (same, found, unique) = with_hits-passed _ title h in
      record {
        planned_old = ap (λ d. d.old_text) same;
        planned_new = ap (λ d. d.new_text) same;
        planned_all = ap (λ d. d.replace_all) same;
        planned_hits = ap (λ d. d.hits) same;
        some_planned = subst (λ d. (total d.hits == 0) ≡ false) same found;
        planned_unique =
            subst (λ d. (ltb 1 (total d.hits) && not d.replace_all) ≡ false) same unique;
      }

  known_scope-Over :
      (old new title : Text) (kept : List Target)
      → (known_scope repr every title kept >>= with_targets repr args old new) ≡ passed e
      → Over old new kept
  known_scope-Over old new title [] h = absurd (refused_passed h)
  known_scope-Over old new title (t ∷ ts) h = with_targets-Over old new (some title) (t ∷ ts) h

  titled_scope-Over :
      (old new title : Text)
      → (titled_scope repr every (non_empty (some title)) >>= with_targets repr args old new)
        ≡ passed e
      → Over old new (keep (λ t. in_scope title t.label) every)
  titled_scope-Over old new [] h = absurd (refused_passed h)
  titled_scope-Over old new (c ∷ title) h = known_scope-Over old new (c ∷ title) _ h

  scope-Over :
      (old new : Text) (v : Value)
      → (scope repr every v >>= with_targets repr args old new) ≡ passed e
      → Over old new (keep (λ t. inside v t.label) every)
  unfolding inside
  scope-Over old new Value.null h = rw (keep_all every) (with_targets-Over old new none every h)
  scope-Over old new (Value.string t) h = titled_scope-Over old new t h
  scope-Over old new (Value.truth b) h = absurd (refused_passed h)
  scope-Over old new (Value.integer i) h = absurd (refused_passed h)
  scope-Over old new (Value.opaque b r i) h = absurd (refused_passed h)

  pub plan-Planned : plan repr args meta ≡ passed e → Planned args meta e
  unfolding plan
  plan-Planned h =
      let (old, old_given, h1) =
        require-bind (non_empty (as_string (arg (text "old_text") args))) _
          (with_old repr args meta) e h in
      let (new, new_given, h2) =
        require-bind (as_string (arg (text "new_text") args)) _ (with_texts repr args meta old) e
          h1 in
      let (differ, h3) =
        forbid-bind (old =ₜ new) _
          (scope repr every (arg (text "section_title") args) >>= with_targets repr args old new) e
          h2 in
      let over = scope-Over old new (arg (text "section_title") args) h3 in
      record {
        old_given = old_given ∙ ap some over.planned_old;
        new_given = new_given ∙ ap some over.planned_new;
        all_given = over.planned_all;
        changes =
            subst (λ t. (t =ₜ e.new_text) ≡ false) over.planned_old
              (subst (λ t. (old =ₜ t) ≡ false) over.planned_new differ);
        hits_found =
            subst
              (λ t.
                hits_of t (keep (λ u. inside (arg (text "section_title") args) u.label) every)
                ≡ e.hits)
              over.planned_old over.planned_hits;
        some_hit = over.some_planned;
        unique = over.planned_unique;
      }
