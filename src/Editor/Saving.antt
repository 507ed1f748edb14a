-- ===== src/Editor/Saving.antt =====
-- editor_tools/tools.py: what `_write_paper_artifacts` leaves in the directory.
use mathodology.Prelude.{◌≡◌, refl, sym, ◌∙◌, some}
use mathodology.Text.{Text}
use mathodology.Exec.{Error, Result, ok, err, pure, continue}
use mathodology.Editor.Meta.{
  Meta, Disk, ToolContext, ToolResult, render_paper_md, outside, call, write_paper_artifacts, saved,
}

-- A write that returns has written its file, and paper.md is another file than paper.meta.json.
pub record Writes {W : Type 0} (disk : Disk W) : Type 0 where
  pub meta_written :
      (m : Meta) (w w' : W) → disk.write_meta m w ≡ (ok tt, w') → (disk.read w').meta_json ≡ some m
  pub paper_written :
      (t : Text) (w w' : W)
      → disk.write_paper t w ≡ (ok tt, w')
      → ((disk.read w').paper_md ≡ some t) × ((disk.read w').meta_json ≡ (disk.read w).meta_json)

-- Both files on disk are those of this paper.
pub record Stored {W : Type 0} (disk : Disk W) (m : Meta) (w : W) : Type 0 where
  pub stored_meta : (disk.read w).meta_json ≡ some m
  pub stored_paper : (disk.read w).paper_md ≡ some (render_paper_md m)

-- The paper is in memory, and if the answer is given, in both files.
pub record Saved {W : Type 0} (disk : Disk W) (r : ToolResult) (m : Meta) (c : ToolContext W)
    (p : Result ToolResult × ToolContext W) : Type 0 where
  pub in_memory : p.1 ≡ record c { paper_meta = m; world = p.1.world }
  pub answered : (t : ToolResult) → p.0 ≡ ok t → (t ≡ r) × Stored disk m p.1.world

pub ok_injective : {A : Type 0} {a b : A} → ok a ≡ ok b → a ≡ b
ok_injective h = cc

ok_err : {A : Type 0} {a : A} {e : Error} → ok a ≡ err e → ⊥
ok_err h = cc

-- The answer, if it is given, is the one that the tool had made.
answer :
    {W : Type 0} (r t : ToolResult) (q : Result (Unit {0}) × ToolContext W)
    → (continue (λ _. pure r) q.0 q.1).0 ≡ ok t
    → t ≡ r
answer r t (ok u, c) h = sym (ok_injective h)
answer r t (err e, c) h = absurd (ok_err (sym h))

pub saved_answer :
    {W : Type 0} (disk : Disk W) (r t : ToolResult) (m : Meta) (c : ToolContext W)
    → (saved disk r m c).0 ≡ ok t
    → t ≡ r
saved_answer disk r t m c = answer r t (write_paper_artifacts disk (record c { paper_meta = m }))

module _ {W : Type 0} (disk : Disk W) (laws : Writes disk) (r : ToolResult) (m : Meta)
    (c : ToolContext W) where
  after_paper :
      (w : W) (q : Result (Unit {0}) × W)
      → (disk.read w).meta_json ≡ some m
      → disk.write_paper (render_paper_md m) w ≡ q
      → Saved disk r m c (
          continue
            (λ _. pure r)
            (outside q (record c { paper_meta = m; world = w })).0
            (outside q (record c { paper_meta = m; world = w })).1)
  after_paper w (ok u, w') has h =
      let law = laws.paper_written (render_paper_md m) w w' h in
      record {
        in_memory = refl;
        answered = λ t e.
            (sym (ok_injective e), record { stored_meta = law.1 ∙ has; stored_paper = law.0 });
      }
  after_paper w (err x, w') has h = record {
    in_memory = refl;
    answered = λ t e. absurd (ok_err (sym e));
  }

  after_meta :
      (w : W) (q : Result (Unit {0}) × W)
      → disk.write_meta m w ≡ q
      → Saved disk r m c (
          let p =
            continue
              (λ _. call (disk.write_paper (render_paper_md m)))
              (outside q (record c { paper_meta = m })).0
              (outside q (record c { paper_meta = m })).1 in
          continue (λ _. pure r) p.0 p.1)
  after_meta w (ok u, w') h =
      after_paper w' (disk.write_paper (render_paper_md m) w') (laws.meta_written m w w' h) refl
  after_meta w (err x, w') h = record {
    in_memory = refl;
    answered = λ t e. absurd (ok_err (sym e));
  }

  pub saved-Saved : Saved disk r m c (saved disk r m c)
  unfolding write_paper_artifacts
  saved-Saved = after_meta c.world (disk.write_meta m c.world) refl
