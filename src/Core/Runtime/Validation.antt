-- ===== src/Core/Runtime/Validation.antt =====
-- crates/harness-core/src/runtime.rs: `validate_tool_calls` against a description of it.
use nausicaa.Prelude.{
  ◌≡◌, ◌↔◌, refl, false, List, [], ◌∷◌, ok, string_ord, ◌==◌, ==_iff, is_blank, inl, inr, arith,
  Bool-cases, sym,
}
use nausicaa.Prelude.BTreeSet
use nausicaa.Prelude.BTreeSet.{BTreeSet}
use nausicaa.Core.Id.{CallId}
use nausicaa.Core.Protocol.{ToolCall}
use nausicaa.Core.Recovery.Log.{HasCall}
use nausicaa.Core.Runtime.Turn.{validate_from, validate_tool_calls}

module _ {V : Type 0} (previously_seen : BTreeSet CallId) where
  -- every id and every name is nonempty, and no id was seen before or stands twice
  abbrev pub AreFresh : List (ToolCall V) → Type 0
  AreFresh [] = Unit
  AreFresh (call ∷ calls) =
      (is_blank call.id ≡ false)
      × (is_blank call.name ≡ false)
      × (BTreeSet.contains call.id previously_seen ≡ false)
      × (¬ (HasCall call.id calls))
      × AreFresh calls

  abbrev Outside : BTreeSet CallId → List (ToolCall V) → Type 0
  Outside current [] = Unit
  Outside current (call ∷ calls) =
      (BTreeSet.contains call.id current ≡ false) × Outside current calls

  -- one more id in the current set
  Outside-insert :
      (id : CallId) (current : BTreeSet CallId) (calls : List (ToolCall V))
      → Outside (BTreeSet.insert id current) calls
        ↔ (Outside current calls × (¬ (HasCall id calls)))
  Outside-insert id current [] = ((λ h. (tt, λ x. x)), (λ h. tt))
  Outside-insert id current (call ∷ calls) =
      let rec = Outside-insert id current calls in
      let step = BTreeSet.contains-insert id call.id current in
      let same = ==_iff id call.id in
      (
        (λ h.
            let (o, n) = rec.0 h.1 in
            ((ground arith, o), λ x. elim x [ inl e ↦ ground (arith, e) | inr y ↦ n y ])),
        (λ h. (
          elim (Bool-cases (id == call.id)) [
            | inl e ↦ absurd (h.1 (inl (sym (same.0 e))))
            | inr e ↦ ground arith
          ],
          rec.1 (h.0.1, λ y. h.1 (inr y)),
        )),
      )

  validate_from_iff :
      (calls : List (ToolCall V)) (current : BTreeSet CallId)
      → (validate_from calls previously_seen current ≡ ok tt)
        ↔ (AreFresh calls × Outside current calls)
  unfolding validate_from
  validate_from_iff [] current = ((λ h. (tt, tt)), (λ h. refl))
  validate_from_iff (call ∷ calls) current =
      let rec = validate_from_iff calls (BTreeSet.insert call.id current) in
      let more = Outside-insert call.id current calls in
      (
        (λ h.
            let rest : validate_from calls previously_seen (BTreeSet.insert call.id current)
                ≡ ok tt =
              ground arith in
            let (fresh, out) = rec.0 rest in
            let (o, n) = more.0 out in
            ((ground arith, ground arith, ground arith, n, fresh), (ground arith, o))),
        (λ h. let rest = rec.1 (h.0.4, more.1 (h.1.1, h.0.3)) in ground (arith, rest)),
      )

  Outside-empty : (calls : List (ToolCall V)) → Outside [] calls
  unfolding BTreeSet.contains
  Outside-empty [] = tt
  Outside-empty (call ∷ calls) = (refl, Outside-empty calls)

  -- The calls of a response are accepted exactly when every id and every name has a character that
  -- is not white space, no id was seen earlier in the turn, and no id stands twice.
  pub validate_tool_calls_iff :
      (calls : List (ToolCall V))
      → (validate_tool_calls calls previously_seen ≡ ok tt) ↔ AreFresh calls
  unfolding validate_tool_calls
  validate_tool_calls_iff calls =
      let both = validate_from_iff calls [] in
      ((λ h. (both.0 h).0), (λ h. both.1 (h, Outside-empty calls)))
