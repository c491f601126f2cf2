-- ===== src/Process/Pipe.antt =====
-- crates/executor-process/src/lib.rs: `CapturedPipe`, which keeps the first bytes of an output.
use nausicaa.Prelude.{
  ℕ, zero, suc, ◌-◌, String, Bool, true, ◌||◌, [], ◌∷◌, ◌++◌, Result, ok, err, Done, length, min,
  ltb, if◌then◌else◌,
}
use nausicaa.Prelude.LogFile.{Bytes}
use nausicaa.Prelude.Sorting.{take}

pub data ProcessError : Type 0 where
  cancelled : ProcessError
  io : String → ProcessError
  invalid : String → ProcessError

-- what a `read` of a descriptor that does not block gives: no bytes are the end of the output
pub data Read : Type 0 where
  count : Bytes → Read
  would_block interrupted : Read
  failed : String → Read

pub record CapturedPipe (R : Type 0) : Type 0 where
  pub reader : R
  pub retained : Bytes
  pub maximum : ℕ
  pub truncated : Bool
  pub eof : Bool

unfoldable pub keep : {R : Type 0} → Bytes → CapturedPipe R → CapturedPipe R
keep bytes pipe =
    let remaining = pipe.maximum - length pipe.retained in
    record pipe {
      retained = pipe.retained ++ take (min (length bytes) remaining) bytes;
      truncated = pipe.truncated || ltb remaining (length bytes);
    }

module _ {R : Type 0} (read : R → Read × R) where
  -- one turn of the loop: what is returned, or to go on
  abbrev pub after_read :
      Read
      → CapturedPipe R
      → (CapturedPipe R → Result Done ProcessError × CapturedPipe R)
      → Result Done ProcessError × CapturedPipe R
  after_read (count []) pipe rest = (ok tt, record pipe { eof = true })
  after_read (count (b ∷ bytes)) pipe rest = rest (keep (b ∷ bytes) pipe)
  after_read would_block pipe rest = (ok tt, pipe)
  after_read interrupted pipe rest = rest pipe
  after_read (failed message) pipe rest = (err (io message), pipe)

  unfoldable pub drain_batch : ℕ → CapturedPipe R → Result Done ProcessError × CapturedPipe R
  unfolding keep
  drain_batch zero pipe = (ok tt, pipe)
  drain_batch (suc turns) pipe =
      let (result, reader) = read pipe.reader in
      after_read result (record pipe { reader = reader }) (drain_batch turns)

  unfoldable pub drain : CapturedPipe R → Result Done ProcessError × CapturedPipe R
  drain pipe = let batch = drain_batch 32 pipe in if pipe.eof then (ok tt, pipe) else batch
