-- ===== src/Process/Inside.antt =====
-- crates/executor-process/src/lib.rs: where the paths lie that the file tools resolve.
use nausicaa.Prelude.{
  ◌≡◌, sym, ap, ◌∙◌, String, true, false, not, any, Result, ok, err, Done, arith, Bool-cases, inl,
  inr,
}
use nausicaa.Prelude.Exec.{continue_ok, ◌>>=◌}
use nausicaa.Core.Tool.{ToolError, invalid_arguments}
use nausicaa.Process.{
  Paths, FileHost, inside, is_normal, lift, reported, map_err, validate_relative,
  resolve_existing_file,
}

inside-ok :
    {W D : Type 0} (paths : Paths) (host : FileHost W D) (workspace canonical path : String)
    (w u : W)
    → inside paths host workspace canonical w ≡ (ok path, u)
    → (paths.starts_with path workspace ≡ true)
      × (host.is_file path u ≡ true)
      × (canonical ≡ path)
      × (w ≡ u)
inside-ok paths host workspace canonical path w u h =
    elim (Bool-cases (paths.starts_with canonical workspace)) [
      | inr out ↦ absurd (ground (arith, rw out at h))
      | inl within ↦ elim (Bool-cases (host.is_file canonical w)) [
        | inr other ↦ absurd (ground (arith, rw (within, other) at h))
        | inl file ↦
            let made : (ok canonical, w) ≡ (ok path, u) = rw (within, file) at h in
            let same : canonical ≡ path = ground (arith, made) in
            (
              rw (← same) within,
              ap (λ c. host.is_file c u) (sym same)
                  ∙ (ap (λ y. host.is_file canonical y.1) (sym made) ∙ file),
              same,
              ap (λ y. y.1) made,
            )
      ]
    ]

validate_relative-ok :
    (paths : Paths) (requested : String) {d : Done}
    → validate_relative paths requested ≡ ok d
    → any (λ c. not (is_normal c)) (paths.components requested) ≡ false
unfolding validate_relative
validate_relative-ok paths requested h =
    elim (Bool-cases (any (λ c. not (is_normal c)) (paths.components requested))) [
      | inr e ↦ e
      | inl e ↦ absurd (ground (arith, h, e))
    ]

-- `canonicalize` as the standard library documents it: where it succeeds it gives the place that a
-- path leads to, with every link followed.
pub record FollowsLinks {W D : Type 0} (host : FileHost W D) (place : String → W → String)
    : Type 0 where
  pub followed :
      (path canonical : String) (w u : W)
      → host.canonicalize path w ≡ (ok canonical, u)
      → canonical ≡ place path u

map_err-ok :
    {W A : Type 0} (report : String → ToolError) (r : Result A String × W) {a : A} {u : W}
    → reported report r ≡ (ok a, u)
    → r ≡ (ok a, u)
map_err-ok report (ok b, w) h = ground (arith, h)
map_err-ok report (err m, w) h = absurd (ground (arith, h))

-- A path that is asked for is only resolved for reading if it is relative, with no `..` in it, and
-- leads, with every link followed, to a file in the workspace; it is that place that is read, and not
-- the path as it was asked for. `canonicalize` follows links as it is documented to.
pub resolve_existing_file-inside :
    {W D : Type 0} (paths : Paths) (host : FileHost W D) (place : String → W → String)
    (follows : FollowsLinks host place) (workspace requested path : String) (w u : W)
    → resolve_existing_file paths host workspace requested w ≡ (ok path, u)
    → (path ≡ place (paths.join workspace requested) u)
      × (paths.starts_with (place (paths.join workspace requested) u) workspace ≡ true)
      × (host.is_file (place (paths.join workspace requested) u) u ≡ true)
      × (any (λ c. not (is_normal c)) (paths.components requested) ≡ false)
unfolding resolve_existing_file
resolve_existing_file-inside paths host place follows workspace requested path w u h =
    let (d, v, p, q) =
      continue_ok (lift (validate_relative paths requested) w)
        (λ _.
          map_err invalid_arguments (host.canonicalize (paths.join workspace requested))
          >>= inside paths host workspace)
        h in
    let (canonical, x, r, s) =
      continue_ok (map_err invalid_arguments (host.canonicalize (paths.join workspace requested)) v)
        (inside paths host workspace) q in
    let (within, file, same, stays) = inside-ok paths host workspace canonical path x u s in
    let found : canonical ≡ place (paths.join workspace requested) x =
      follows.followed (paths.join workspace requested) canonical v x
        (map_err-ok invalid_arguments (host.canonicalize (paths.join workspace requested) v) r) in
    let at : path ≡ place (paths.join workspace requested) u =
      sym same ∙ (found ∙ ap (place (paths.join workspace requested)) stays) in
    (
      at,
      ap (λ c. paths.starts_with c workspace) (sym at) ∙ within,
      ap (λ c. host.is_file c u) (sym at) ∙ file,
      validate_relative-ok paths requested (ap (λ y. y.0) p),
    )
