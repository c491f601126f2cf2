-- ===== src/Provider/Tests.antt =====
-- A stream with one frame, in two pieces.
use nausicaa.Prelude.{
  ◌≡◌, refl, String, false, Option, none, some, [], ◌∷◌, ◌++◌, ok, eqb, length, if◌then◌else◌, ◌==◌,
  string_ord, byte_len, is_blank,
}
use nausicaa.Prelude.LogFile.{Bytes}
use nausicaa.Provider.{StreamJson}
use nausicaa.Provider.Stream.{Decoder, push, push_byte, line, dispatch, strip_prefix, for_each}
use nausicaa.Provider.Drafts.{IsDrafted, push-IsDrafted}

-- the fields that the frame has are the frame itself
abbrev field : String → String → Option String
field key frame =
    if key == "choices"
    then some frame
    else if key == "index"
    then some frame
    else if key == "delta"
    then some frame
    else if key == "content"
    then some frame
    else none

abbrev json : StreamJson String
json = record {
  parse = λ text. ok text;
  display = λ v. v;
  get = field;
  is_null = λ v. false;
  as_str = λ v. some "hi";
  as_u64 = λ v. some 0;
  as_array = λ v. some (v ∷ []);
  null = "";
  string = λ text. text;
  array = λ vs. "";
  object = λ entries. "";
}

abbrev from_utf8 : Bytes → Option String
from_utf8 bytes = if eqb (length bytes) 0 then some "" else some "data:x"

abbrev start : Decoder String
start = record {
  pending = [];
  data_ = "";
  content = "";
  calls = [];
  finish_reason = none;
  usage = "";
  done = false;
  drafts = [];
}

abbrev piece : Bytes
piece = b'd' ∷ []

abbrev rest : Bytes
rest = b'x' ∷ b'\n' ∷ b'\n' ∷ []

abbrev drafted : Decoder String
drafted = record start { content = "hi"; drafts = "hi" ∷ [] }

drafts : (push json from_utf8 (piece ++ rest) start).1 ≡ drafted
unfolding push push_byte line dispatch strip_prefix for_each byte_len is_blank
drafts = refl

push-IsDrafted_example : IsDrafted (push json from_utf8 (piece ++ rest) start).1
push-IsDrafted_example = push-IsDrafted json from_utf8 (piece ++ rest) start refl
