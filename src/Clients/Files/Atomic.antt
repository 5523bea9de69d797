-- ===== src/Clients/Files/Atomic.antt =====
-- A file is replaced as a whole or not at all.
use mcpglass.Base.{
  Bool, true, false, Bool-cases, subst, Option, none, some, Option-cases, ◌≡◌, ◌≢◌, refl, sym, ◌∙◌,
  inl, inr,
}
use mcpglass.Base.Text.{Text, text_eq, text_eq_iff, text_eq_refl}
use mcpglass.Clients.Table.Laws.{other_key}
use mcpglass.Clients.Files.{Attempt, ok, failed, Disk, put, Machine, rename_temp, replace_file}

pub put_here :
    (path : Text) (content : Option Text) (disk : Disk) → put path content disk path ≡ content
unfolding put
put_here path content disk = rw (text_eq_refl path) refl

pub put_elsewhere :
    (path p : Text) (content : Option Text) (disk : Disk)
    → p ≢ path
    → put path content disk p ≡ disk p
unfolding put
put_elsewhere path p content disk h = rw (other_key p path h) refl

-- The file has its new content and the temporary file is gone, or the file is as it was; and no
-- other file has changed.
abbrev pub Contents : Text → Text → Text → Disk → Attempt (Unit {0}) × Disk → Type 0
Contents temp path text disk (ok _, after) = (after path ≡ some text) × (after temp ≡ none)
Contents temp path text disk (failed _, after) = after path ≡ disk path

abbrev pub Replaces : Text → Text → Text → Disk → Attempt (Unit {0}) × Disk → Type 0
Replaces temp path text disk o =
    Contents temp path text disk o × ((p : Text) → p ≢ temp → p ≢ path → o.1 p ≡ disk p)

-- So after a failure only the temporary file can differ.
pub Replaces-failed :
    (temp path text : Text) (disk : Disk) (o : Attempt (Unit {0}) × Disk) (err p : Text)
    → Replaces temp path text disk o
    → o.0 ≡ failed err
    → p ≢ temp
    → o.1 p ≡ disk p
Replaces-failed temp path text disk (ok _, after) err p h e differ = cc
Replaces-failed temp path text disk (failed _, after) err p (kept, others) e differ =
    elim (Bool-cases (text_eq p path)) [
      | inl same ↦ subst (λ q. after q ≡ disk q) (sym ((text_eq_iff p path).0 same)) kept
      | inr other ↦ others p differ (λ same. apart ((text_eq_iff p path).1 same) other)
    ]
  where
    apart : {b : Bool} → b ≡ true → b ≡ false → ⊥
    apart h k = cc (h, k)

module _ (m : Machine) (temp path text : Text) (disk : Disk) (differ : temp ≢ path) where
  temp_passed : (p : Text) → p ≢ temp → put temp none (put temp (some text) disk) p ≡ disk p
  temp_passed p h =
      put_elsewhere temp p none (put temp (some text) disk) h
      ∙ put_elsewhere temp p (some text) disk h

  rename_temp-Replaces :
      Replaces temp path text disk (rename_temp m temp path text (put temp (some text) disk))
  unfolding rename_temp
  rename_temp-Replaces = elim (Option-cases (m.rename path)) [
    | inl e ↦
        rw (e, rename_temp)
          (
            (
              put_here path (some text) _,
              put_elsewhere path temp (some text) _ differ ∙ put_here temp none _,
            ),
            λ p h k. put_elsewhere path p (some text) _ k ∙ temp_passed p h,
          )
    | inr (err, e) ↦
        rw (e, rename_temp) (temp_passed path (λ q. differ (sym q)), λ p h k. temp_passed p h)
  ]

  -- If the temporary file is another than the file: whatever calls fail, replacing a file either
  -- succeeds, and then the file has the new content and the temporary file is gone, or fails, and
  -- then the file is as it was; no third file changes.
  pub replace_file-Replaces : Replaces temp path text disk (replace_file m temp path text disk)
  unfolding replace_file
  replace_file-Replaces = elim (Option-cases (m.write temp)) [
    | inl e ↦ rw (e, replace_file) rename_temp-Replaces
    | inr ((err, part), e) ↦
        rw (e, replace_file)
          (
            put_elsewhere temp path (some part) disk (λ q. differ (sym q)),
            λ p h k. put_elsewhere temp p (some part) disk h,
          )
  ]
