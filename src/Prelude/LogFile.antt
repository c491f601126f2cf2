-- ===== src/Prelude/LogFile.antt =====
-- The append-only file behind a journal, as the standard library gives it: every operation may fail
-- with the text of an I/O error, and a failed write may have written a part. `Bytes` are the encoded
-- records.
use mathlib.Core.List.{List, [], ◌∷◌}
use mathlib.Core.Path.{◌≡◌, ap, ◌∙◌}
use mathlib.Core.List.{◌++◌, append_assoc}
use Prim.Native.Nat.{ℕ}
use Prim.Native.String.{String}
use nausicaa.Prelude.Results.{Done, ok}
use nausicaa.Prelude.Exec.{Exec, ◌>>◌, continue_ok}

abbrev pub Bytes : Type 0
Bytes = List ℕ

pub record LogFile (F : Type 0) : Type 0 where
  pub write_all : Bytes → Exec F String Done
  pub flush : Exec F String Done
  pub sync_data : Exec F String Done

-- A record and its newline, flushed and synced: the calls that the journals share.
unfoldable pub write_line : {F : Type 0} → LogFile F → Bytes → Exec F String Done
write_line log bytes = do log.write_all bytes; log.write_all (b'\n' ∷ []); log.flush; log.sync_data

-- A file open for appending: `content` is what it holds. After an error it is not known.
pub record Appends {F : Type 0} (log : LogFile F) (content : F → Bytes) : Type 0 where
  pub appended :
      (bytes : Bytes) (f g : F) (d : Done)
      → log.write_all bytes f ≡ (ok d, g)
      → content g ≡ content f ++ bytes
  pub flushed : (f g : F) (d : Done) → log.flush f ≡ (ok d, g) → content g ≡ content f
  pub kept : (f g : F) (d : Done) → log.sync_data f ≡ (ok d, g) → content g ≡ content f

pub write_line-content :
    {F : Type 0} (log : LogFile F) (content : F → Bytes) (appends : Appends log content)
    (bytes : Bytes) (f g : F) (d : Done)
    → write_line log bytes f ≡ (ok d, g)
    → content g ≡ content f ++ (bytes ++ b'\n' ∷ [])
unfolding write_line
write_line-content log content appends bytes f g d h =
    let newline : Bytes = b'\n' ∷ [] in
    let (d₁, f₁, p₁, q₁) =
      continue_ok (log.write_all bytes f)
        (λ _. log.write_all newline >> (log.flush >> log.sync_data)) h in
    let (d₂, f₂, p₂, q₂) =
      continue_ok (log.write_all newline f₁) (λ _. log.flush >> log.sync_data) q₁ in
    let (d₃, f₃, p₃, q₃) = continue_ok (log.flush f₂) (λ _. log.sync_data) q₂ in
    appends.kept f₃ g d q₃
    ∙ (appends.flushed f₂ f₃ d₃ p₃
        ∙ (appends.appended newline f₁ f₂ d₂ p₂
            ∙ (ap (λ c. c ++ newline) (appends.appended bytes f f₁ d₁ p₁)
                ∙ append_assoc (content f) bytes newline)))
