-- ===== src/Process/Execution.antt =====
-- crates/executor-process/src/editing.rs: what `apply_patch` leaves of a file when it fails.
use nausicaa.Prelude.{
  ℕ, ◌≡◌, refl, sym, ap, ◌∙◌, String, Bool, true, false, Result, err, arith, Bool-cases, inl, inr,
  ◌⊎◌,
}
use nausicaa.Prelude.Exec.{Exec, ◌>>=◌, pure, Outcome-cases}
use nausicaa.Core.Protocol.{PreparedToolCall}
use nausicaa.Core.Tool.{ToolError, ToolExecutionContext, outcome_unknown}
use nausicaa.Process.{Json, Paths, FileHost, map_err, lift, inside, resolve_existing_file}
use nausicaa.Process.Editing.{read_regular, read_text, checked_path}
use nausicaa.Process.Patch.{
  execute, apply_patch, replace_file, write_unless_cancelled, replace_content,
}

-- a call keeps something of the world, whatever it returns
abbrev pub Keeps : {W A E C : Type 0} → (W → C) → Exec W E A → Type 0
Keeps {W} content body = (w : W) → content (body w).1 ≡ content w

-- where a call returns an error, it has kept that, or the error says that the outcome is unknown
abbrev pub IsSafe : {W A C : Type 0} → (W → C) → Exec W ToolError A → Type 0
IsSafe {W} content body =
    (w u : W) (e : ToolError)
    → body w ≡ (err e, u)
    → (content u ≡ content w) ⊎ ((message : String) × (e ≡ outcome_unknown message))

module _ {W C : Type 0} (content : W → C) where
  Keeps-bind :
      {A B E : Type 0} (m : Exec W E A) (f : A → Exec W E B)
      → Keeps content m
      → ((a : A) → Keeps content (f a))
      → Keeps content (m >>= f)
  Keeps-bind m f k l w = elim (Outcome-cases (m w)) [
    | inl (a, u, e) ↦ rw e (l a u ∙ (ap (λ r. content r.1) (sym e) ∙ k w))
    | inr (x, u, e) ↦ rw e (ap (λ r. content r.1) (sym e) ∙ k w)
  ]

  Keeps-lift : {A : Type 0} (r : Result A ToolError) → Keeps content (lift r)
  Keeps-lift r w = refl

  Keeps-map_err :
      {A : Type 0} (report : String → ToolError) (m : Exec W String A)
      → Keeps content m
      → Keeps content (map_err report m)
  Keeps-map_err report m k w = elim (Outcome-cases (m w)) [
    | inl (a, u, e) ↦ rw e (ap (λ r. content r.1) (sym e) ∙ k w)
    | inr (x, u, e) ↦ rw e (ap (λ r. content r.1) (sym e) ∙ k w)
  ]

  IsSafe-bind :
      {A B : Type 0} (m : Exec W ToolError A) (f : A → Exec W ToolError B)
      → Keeps content m
      → ((a : A) → IsSafe content (f a))
      → IsSafe content (m >>= f)
  IsSafe-bind m f k l w u e h = elim (Outcome-cases (m w)) [
    | inl (a, v, p) ↦
        let same : content v ≡ content w = ap (λ r. content r.1) (sym p) ∙ k w in
        elim (l a v u e (rw p at h)) [ inl kept ↦ inl (kept ∙ same) | inr unknown ↦ inr unknown ]
    | inr (x, v, p) ↦
        let made : (err x, v) ≡ (err e, u) = rw p at h in
        inl (ap (λ r. content r.1) (sym made) ∙ (ap (λ r. content r.1) (sym p) ∙ k w))
  ]

  -- what follows the call cannot fail
  IsSafe-pure :
      {A B : Type 0} (m : Exec W ToolError A) (b : B)
      → IsSafe content m
      → IsSafe content (m >>= λ a. pure b)
  IsSafe-pure m b safe w u e h = elim (Outcome-cases (m w)) [
    | inl (a, v, p) ↦ absurd (ground (arith, rw p at h))
    | inr (x, v, p) ↦ safe w u e (p ∙ ground (arith, rw p at h))
  ]

-- the calls that read keep the content of the files
pub record Preserves {W D C : Type 0} (host : FileHost W D) (content : W → C) : Type 0 where
  pub canonicalize : (path : String) → Keeps content (host.canonicalize path)
  pub open_read_write : (path : String) → Keeps content (host.open_read_write path)
  pub is_regular : (file : D) → Keeps content (host.is_regular file)
  pub read_up_to : (n : ℕ) (file : D) → Keeps content (host.read_up_to n file)
  pub seek_start : (file : D) → Keeps content (host.seek_start file)

module _ {V W D C : Type 0} (json : Json V) (paths : Paths) (host : FileHost W D)
    (workspace : String) (content : W → C) (preserves : Preserves host content) where
  inside-Keeps : (canonical : String) → Keeps content (inside paths host workspace canonical)
  inside-Keeps canonical w = ground arith

  read_regular-Keeps : (file : D) (regular : Bool) → Keeps content (read_regular host file regular)
  read_regular-Keeps file false = search (Keeps-lift content)
  read_regular-Keeps file true =
      search (Keeps-bind content, Keeps-lift content, Keeps-map_err content, preserves.read_up_to)

  resolve-Keeps : (path : String) → Keeps content (resolve_existing_file paths host workspace path)
  unfolding resolve_existing_file
  resolve-Keeps path = search (
    Keeps-bind content,
    Keeps-lift content,
    Keeps-map_err content,
    preserves.canonicalize,
    inside-Keeps,
  )

  checked_path-Keeps : (path : String) → Keeps content (checked_path paths host workspace path)
  unfolding checked_path
  checked_path-Keeps path = search (Keeps-bind content, Keeps-lift content, resolve-Keeps)

  read_text-Keeps : (file : D) → Keeps content (read_text host file)
  unfolding read_text
  read_text-Keeps file =
      search (Keeps-bind content, Keeps-map_err content, preserves.is_regular, read_regular-Keeps)

  write-IsSafe :
      (after : String) (file : D)
      → IsSafe content (write_unless_cancelled json paths host workspace after file)
  write-IsSafe after file w u e h = elim (Bool-cases (host.is_cancelled w)) [
    | inl stop ↦
        let made : (err ToolError.cancelled, w) ≡ (err e, u) = rw stop at h in
        inl (ap (λ r. content r.1) (sym made))
    | inr go ↦ elim (Outcome-cases (replace_content json paths host workspace after file w)) [
      | inl (d, v, p) ↦ absurd (ground (arith, rw (go, p) at h))
      | inr (m, v, p) ↦ inr (m, ground (arith, rw (go, p) at h))
    ]
  ]

  replace_file-IsSafe :
      (path before after : String) (file : D)
      → IsSafe content (replace_file json paths host workspace path before after file)
  replace_file-IsSafe path before after file = search (
    IsSafe-bind content,
    IsSafe-pure content,
    Keeps-lift content,
    Keeps-map_err content,
    read_text-Keeps,
    preserves.seek_start,
    write-IsSafe,
  )

  apply_patch-IsSafe : (args : V) → IsSafe content (apply_patch json paths host workspace args)
  apply_patch-IsSafe args =
      search
        (
          IsSafe-bind content,
          Keeps-lift content,
          Keeps-map_err content,
          checked_path-Keeps,
          preserves.open_read_write,
          replace_file-IsSafe,
        )
        depth 9

  -- When applying a patch returns an error, the content of the files is what it was, or the error
  -- says that the outcome is unknown: an error that is known has left no part of the patch. The calls
  -- that read keep the content.
  pub execute-IsSafe :
      (prepared_call : PreparedToolCall V) (context : ToolExecutionContext) (w u : W)
      (e : ToolError)
      → execute json paths host workspace prepared_call context w ≡ (err e, u)
      → (content u ≡ content w) ⊎ ((message : String) × (e ≡ outcome_unknown message))
  unfolding execute
  execute-IsSafe prepared_call context w u e h = elim (Bool-cases (host.is_cancelled w)) [
    | inl stop ↦
        let made : (err ToolError.cancelled, w) ≡ (err e, u) = rw stop at h in
        inl (ap (λ r. content r.1) (sym made))
    | inr go ↦ apply_patch-IsSafe prepared_call.action.arguments w u e (rw go at h)
  ]
