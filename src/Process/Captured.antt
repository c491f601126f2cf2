-- ===== src/Process/Captured.antt =====
-- crates/executor-process/src/lib.rs: what a pipe keeps of an output.
use nausicaa.Prelude.{
  ℕ, zero, suc, ◌-◌, ◌≡◌, refl, sym, ap, ◌∙◌, false, [], ◌∷◌, ◌++◌, ok, arith, length,
  length-append, min, ltb, if◌then◌else◌, append_assoc, append-nil,
}
use nausicaa.Prelude.LogFile.{Bytes}
use nausicaa.Prelude.Sorting.{take}
use nausicaa.Process.Pipe.{
  Read, count, would_block, interrupted, failed, CapturedPipe, keep, drain_batch, drain, after_read,
}

-- the pipe has kept the first bytes of what was read, and says whether there were more
pub record Captures {R : Type 0} (output : Bytes) (pipe : CapturedPipe R) : Type 0 where
  pub kept : pipe.retained ≡ take pipe.maximum output
  pub cut : pipe.truncated ≡ ltb pipe.maximum (length output)

same : (n : ℕ) → n ≡ n - 0
same n = omega arith

none_left : (k : ℕ) → 0 ≡ 0 - suc k
none_left k = omega arith

less : (n k : ℕ) → n - k ≡ suc n - suc k
less n k = omega arith

take-append : (n : ℕ) (xs ys : Bytes) → take n (xs ++ ys) ≡ take n xs ++ take (n - length xs) ys
take-append zero [] ys = ap (λ k. take k ys) (same zero)
take-append (suc n) [] ys = ap (λ k. take k ys) (same (suc n))
take-append zero (x ∷ xs) ys = ap (λ k. take k ys) (none_left (length xs))
take-append (suc n) (x ∷ xs) ys =
    ap (λ t. x ∷ t) (take-append n xs ys ∙ ap (λ k. take n xs ++ take k ys) (less n (length xs)))

length-take-min : (n : ℕ) (xs : Bytes) → length (take n xs) ≡ min n (length xs)
length-take-min zero xs = omega arith
length-take-min (suc n) [] = omega arith
length-take-min (suc n) (x ∷ xs) = omega (arith, length-take-min n xs)

take-min : (n k : ℕ) (xs : Bytes) → k ≡ min (length xs) n → take k xs ≡ take n xs
take-min zero zero xs h = refl
take-min zero (suc k) xs h = absurd (omega (arith, h))
take-min (suc n) zero [] h = refl
take-min (suc n) (suc k) [] h = refl
take-min (suc n) zero (x ∷ xs) h = absurd (omega (arith, h))
take-min (suc n) (suc k) (x ∷ xs) h = ap (λ t. x ∷ t) (take-min n k xs (omega (arith, h)))

keep-Captures :
    {R : Type 0} (output bytes : Bytes) (pipe : CapturedPipe R)
    → Captures output pipe
    → Captures (output ++ bytes) (keep bytes pipe)
unfolding keep
keep-Captures output bytes pipe c =
    let room : length pipe.retained ≡ min pipe.maximum (length output) =
      ap length c.kept ∙ length-take-min pipe.maximum output in
    let same : pipe.maximum - length pipe.retained ≡ pipe.maximum - length output =
      omega (arith, room) in
    record {
      kept =
          ap (λ t. t ++ take (min (length bytes) (pipe.maximum - length pipe.retained)) bytes)
            c.kept
          ∙ (ap (λ t. take pipe.maximum output ++ t)
                (take-min (pipe.maximum - length output)
                  (min (length bytes) (pipe.maximum - length pipe.retained)) bytes
                  (omega (arith, same)))
              ∙ sym (take-append pipe.maximum output bytes));
      cut = ground (arith, c.cut, same, length-append output bytes);
    }

module _ {R : Type 0} (read : R → Read × R) where
  abbrev seen_after : Read → Bytes → Bytes
  seen_after (count []) rest = []
  seen_after (count (b ∷ bytes)) rest = (b ∷ bytes) ++ rest
  seen_after would_block rest = []
  seen_after interrupted rest = rest
  seen_after (failed message) rest = []

  -- what the reads of a batch give, until one ends it
  unfoldable pub seen : ℕ → R → Bytes
  seen zero reader = []
  seen (suc turns) reader = let (result, next) = read reader in seen_after result (seen turns next)

  after_read-Captures :
      (turns : ℕ) (result : Read) (output : Bytes) (pipe : CapturedPipe R)
      (rest : (before : Bytes) (q : CapturedPipe R)
        → Captures before q
        → Captures (before ++ seen turns q.reader) (drain_batch read turns q).1)
      → Captures output pipe
      → Captures
          (output ++ seen_after result (seen turns pipe.reader))
          (after_read read result pipe (drain_batch read turns)).1
  unfolding keep
  after_read-Captures turns (count []) output pipe rest c =
      rw (append-nil output) (record { kept = c.kept; cut = c.cut })
  after_read-Captures turns (count (b ∷ bytes)) output pipe rest c =
      rw (← append_assoc output (b ∷ bytes) (seen turns pipe.reader)) (
        rest (output ++ b ∷ bytes) (keep (b ∷ bytes) pipe)
          (keep-Captures output (b ∷ bytes) pipe c))
  after_read-Captures turns would_block output pipe rest c = rw (append-nil output) c
  after_read-Captures turns interrupted output pipe rest c = rest output pipe c
  after_read-Captures turns (failed message) output pipe rest c = rw (append-nil output) c

  drain_batch-Captures :
      (turns : ℕ) (output : Bytes) (pipe : CapturedPipe R)
      → Captures output pipe
      → Captures (output ++ seen turns pipe.reader) (drain_batch read turns pipe).1
  unfolding drain_batch seen
  drain_batch-Captures zero output pipe c = rw (append-nil output) c
  drain_batch-Captures (suc turns) output pipe c =
      after_read-Captures turns (read pipe.reader).0 output
        (record pipe { reader = (read pipe.reader).1 }) (drain_batch-Captures turns)
        (record { kept = c.kept; cut = c.cut })

  -- Draining a pipe that is not at its end goes on with what the reads of one batch give: it has
  -- kept the first bytes of the whole output, up to its maximum, and says that it is cut just when
  -- the output is longer.
  pub drain-Captures :
      (output : Bytes) (pipe : CapturedPipe R)
      → pipe.eof ≡ false
      → Captures output pipe
      → Captures (output ++ seen 32 pipe.reader) (drain read pipe).1
  unfolding drain
  drain-Captures output pipe running c =
      let batch : drain read pipe ≡ drain_batch read 32 pipe =
        ap (λ b. if b then (ok tt, pipe) else drain_batch read 32 pipe) running in
      rw batch (drain_batch-Captures 32 output pipe c)
