-- ===== src/Provider/Drafts.antt =====
-- crates/provider-openai/src/stream.rs: the drafts of its text.
use nausicaa.Prelude.{
  ℕ, ◌≡◌, sym, ap, ◌∙◌, String, Bool, true, false, Option, none, some, List, [], ◌∷◌, Result, ok,
  err, Done, if◌then◌else◌, Bool-cases, Option-cases, inl, inr, push as push_back, ltb, eqb, length,
  byte_len, ◌==◌, string_ord,
}
use Prim.Native.String.{◌++◌}
use nausicaa.Prelude.Exec.{Exec, ◌>>=◌, Outcome-cases}
use nausicaa.Prelude.LogFile.{Bytes}
use nausicaa.Prelude.Strings.{is_empty, trim}
use nausicaa.Process.Slices.{append_assoc, append-nil, append_nil}
use nausicaa.Provider.{StreamJson}
use nausicaa.Provider.Stream.{
  Decoder, TransportError, Step, push_byte, push, line, dispatch, for_each, add_draft, or_fail,
  when_some, on_content, Call, change_call, refuse_legacy, add_id, add_name, add_arguments,
  on_function, check, on_call, on_calls, on_delta, unfinished, on_reason, on_choice, on_choices,
  refuse_error, set_usage, on_frame, on_parsed, on_done, add_data, max_frame, without_space,
  strip_prefix, trim_carriage_returns,
}

-- the texts, one after the other
abbrev pub joined : List String → String
joined [] = ""
joined (text ∷ texts) = text ++ joined texts

joined-push :
    (text : String) (texts : List String) → joined (push_back text texts) ≡ joined texts ++ text
joined-push text [] = append-nil text ∙ sym (append_nil text)
joined-push text (t ∷ texts) =
    ap (λ r. t ++ r) (joined-push text texts) ∙ sym (append_assoc t (joined texts) text)

module _ {V : Type 0} where
  -- the drafts are the content
  abbrev pub IsDrafted : Decoder V → Type 0
  IsDrafted s = joined s.drafts ≡ s.content

  abbrev Drafts : {A : Type 0} → Exec (Decoder V) TransportError A → Type 0
  Drafts body = (s : Decoder V) → IsDrafted s → IsDrafted (body s).1

  Drafts-bind :
      {A B : Type 0} (m : Exec (Decoder V) TransportError A)
      (f : A → Exec (Decoder V) TransportError B)
      → Drafts m
      → ((a : A) → Drafts (f a))
      → Drafts (m >>= f)
  Drafts-bind m f k l s h = elim (Outcome-cases (m s)) [
    | inl (a, t, e) ↦ rw e (l a t (rw e at (k s h)))
    | inr (x, t, e) ↦ rw e (rw e at (k s h))
  ]

  if-Drafts :
      {A : Type 0} (b : Bool) (p q : Result A TransportError × Decoder V)
      → IsDrafted p.1
      → IsDrafted q.1
      → IsDrafted (if b then p else q).1
  if-Drafts true p q h k = h
  if-Drafts false p q h k = k

  module _ (json : StreamJson V) where
    or_fail-Drafts :
        {A : Type 0} (o : Option A) (message : String) → Drafts (or_fail json o message)
    or_fail-Drafts none message s h = h
    or_fail-Drafts (some a) message s h = h

    when_some-Drafts :
        (o : Option V) (f : V → Step json Done)
        → ((v : V) → Drafts (f v))
        → Drafts (when_some json o f)
    when_some-Drafts none f k = λ s h. h
    when_some-Drafts (some v) f k = k v

    add_draft-Drafts : (text : String) → Drafts (add_draft json text)
    add_draft-Drafts text s h = elim (Bool-cases (is_empty text)) [
      | inl e ↦ rw e h
      | inr e ↦ rw e (joined-push text s.drafts ∙ ap (λ t. t ++ text) h)
    ]

    for_each-Drafts :
        (body : V → Step json Done) (vs : List V)
        → ((v : V) → Drafts (body v))
        → Drafts (for_each json body vs)
    unfolding for_each
    for_each-Drafts body [] k = λ s h. h
    for_each-Drafts body (v ∷ vs) k =
        Drafts-bind (body v) (λ _. for_each json body vs) (k v) (λ _. for_each-Drafts body vs k)

    on_content-Drafts : (v : V) → Drafts (on_content json v)
    on_content-Drafts v = search (Drafts-bind, or_fail-Drafts, add_draft-Drafts)

    change_call-Drafts : (index : ℕ) (change : Call → Call) → Drafts (change_call json index change)
    change_call-Drafts index change s h = h

    refuse_legacy-Drafts : (o : Option V) → Drafts (refuse_legacy json o)
    refuse_legacy-Drafts none s h = h
    refuse_legacy-Drafts (some v) s h = h

    add_id-Drafts : (index : ℕ) (v : V) → Drafts (add_id json index v)
    add_id-Drafts index v = search (Drafts-bind, or_fail-Drafts, change_call-Drafts)

    add_name-Drafts : (index : ℕ) (v : V) → Drafts (add_name json index v)
    add_name-Drafts index v = search (Drafts-bind, or_fail-Drafts, change_call-Drafts)

    add_arguments-Drafts : (index : ℕ) (v : V) → Drafts (add_arguments json index v)
    add_arguments-Drafts index v = search (Drafts-bind, or_fail-Drafts, change_call-Drafts)

    on_function-Drafts : (index : ℕ) (v : V) → Drafts (on_function json index v)
    on_function-Drafts index v =
        search (Drafts-bind, when_some-Drafts, add_name-Drafts, add_arguments-Drafts)

    -- a call that only checks
    check-Drafts : (b : Bool) (message : String) → Drafts (check json b message)
    check-Drafts true message s h = h
    check-Drafts false message s h = h

    on_call-Drafts : (v : V) → Drafts (on_call json v)
    on_call-Drafts v =
        search
          (
            Drafts-bind, or_fail-Drafts, when_some-Drafts, change_call-Drafts, add_id-Drafts,
            check-Drafts, on_function-Drafts,
          )
          depth 9

    on_calls-Drafts : (v : V) → Drafts (on_calls json v)
    on_calls-Drafts v = search (Drafts-bind, or_fail-Drafts, for_each-Drafts, on_call-Drafts)

    on_delta-Drafts : (v : V) → Drafts (on_delta json v)
    on_delta-Drafts v =
        search
          (Drafts-bind, when_some-Drafts, on_content-Drafts, refuse_legacy-Drafts, on_calls-Drafts)

    unfinished-Drafts : Drafts (unfinished json)
    unfinished-Drafts s h = elim (Option-cases s.finish_reason) [
      | inl e ↦ rw e h
      | inr (reason, e) ↦ rw e h
    ]

    on_reason-Drafts : (v : V) → Drafts (on_reason json v)
    on_reason-Drafts v =
        Drafts-bind (or_fail json (json.as_str v) "invalid stream finish reason") _
          (or_fail-Drafts (json.as_str v) "invalid stream finish reason") (λ reason s h. h)

    on_choice-Drafts : (v : V) → Drafts (on_choice json v)
    on_choice-Drafts v = search (
      Drafts-bind, check-Drafts, unfinished-Drafts, when_some-Drafts, on_delta-Drafts,
      on_reason-Drafts,
    )

    on_choices-Drafts : (choices : List V) → Drafts (on_choices json choices)
    on_choices-Drafts choices s h = elim (Bool-cases (ltb 1 (length choices))) [
      | inl many ↦ rw many h
      | inr one ↦ rw one (for_each-Drafts (on_choice json) choices on_choice-Drafts s h)
    ]

    refuse_error-Drafts : (o : Option V) → Drafts (refuse_error json o)
    refuse_error-Drafts none s h = h
    refuse_error-Drafts (some v) s h = h

    set_usage-Drafts : (v : V) → Drafts (set_usage json v)
    set_usage-Drafts v s h = h

    on_frame-Drafts : (v : V) → Drafts (on_frame json v)
    on_frame-Drafts v = search (
      Drafts-bind, refuse_error-Drafts, when_some-Drafts, set_usage-Drafts, or_fail-Drafts,
      on_choices-Drafts,
    )

    on_parsed-Drafts : (r : Result V String) → Drafts (on_parsed json r)
    on_parsed-Drafts (err message) = λ s h. h
    on_parsed-Drafts (ok frame) = on_frame-Drafts frame

    on_done-Drafts : Drafts (on_done json)
    on_done-Drafts s h = elim (Option-cases s.finish_reason) [
      | inl e ↦ rw e h
      | inr (reason, e) ↦ rw e h
    ]

    dispatch-Drafts : Drafts (dispatch json)
    unfolding dispatch
    dispatch-Drafts s h =
        let taken = record s { data_ = "" } in
        if-Drafts (is_empty s.data_) _ _ h (
          if-Drafts (trim s.data_ == "[DONE]") _ _ (on_done-Drafts taken h)
            (on_parsed-Drafts (json.parse s.data_) taken h))

    add_data-Drafts : (o : Option String) → Drafts (add_data json o)
    add_data-Drafts none s h = h
    add_data-Drafts (some text) s h =
        if-Drafts s.done _ _ h
          (if-Drafts (ltb max_frame (byte_len (s.data_ ++ without_space text ++ "\n"))) _ _ h h)

    line-Drafts : (text : String) → Drafts (line json text)
    unfolding line
    line-Drafts text s h =
        if-Drafts (is_empty text) _ _ (dispatch-Drafts s h)
          (add_data-Drafts (strip_prefix "data:" text) s h)

    module _ (from_utf8 : Bytes → Option String) where
      push_byte-Drafts : (byte : ℕ) → Drafts (push_byte json from_utf8 byte)
      unfolding push_byte
      push_byte-Drafts byte s h =
          if-Drafts (eqb byte b'\n') _ _
            (Drafts-bind (or_fail json (from_utf8 s.pending) "stream contains invalid UTF-8")
              (λ text. line json (trim_carriage_returns text))
              (or_fail-Drafts (from_utf8 s.pending) "stream contains invalid UTF-8")
              (λ text. line-Drafts (trim_carriage_returns text)) (record s { pending = [] }) h)
            (if-Drafts (ltb max_frame (length (push_back byte s.pending))) _ _ h h)

      -- What is drafted while a stream is pushed is the content of its response: the drafts, one
      -- after the other, are the content after any bytes, where they were before, also where an
      -- error is returned.
      pub push-IsDrafted :
          (bytes : Bytes) (s : Decoder V) → IsDrafted s → IsDrafted (push json from_utf8 bytes s).1
      unfolding push
      push-IsDrafted [] s h = h
      push-IsDrafted (byte ∷ bytes) s h =
          Drafts-bind (push_byte json from_utf8 byte) (λ _. push json from_utf8 bytes)
            (push_byte-Drafts byte) (λ _. push-IsDrafted bytes) s h
