-- ===== src/Limits.antt =====
-- internal/limits/capture.go: the output of a command, kept up to a limit that its writers share.
-- A lock makes each reservation and each append one step, so a run is a list of writes.
pub mod Bounds
use haro.Prelude.{
  ℕ, ◌-◌, ◌*◌, String, Bool, true, false, not, ◌||◌, ◌==◌, nat_eq, leb, ltb, List, [], ◌∷◌, ◌++◌,
  length, take, if◌then◌else◌, Bytes, codes,
}

abbrev pub command_output_total_capture_limit : ℕ
command_output_total_capture_limit = 2 * 1024 * 1024

abbrev pub output_truncation_notice : Bytes
output_truncation_notice = codes "\n[output truncated: capture limit exceeded]"

-- What is reserved, and the budget that remains.
unfoldable pub reserve : ℕ → ℕ → ℕ × ℕ
reserve remaining size =
    if leb remaining 0
    then (0, remaining)
    else let size' = if ltb remaining size then remaining else size in (size', remaining - size')

-- A CaptureWriter without its budget.
pub record CaptureWriter : Type 0 where
  pub buf : Bytes
  pub truncated : Bool

abbrev pub new_writer : CaptureWriter
new_writer = record { buf = []; truncated = false }

-- The number of bytes that Write reports, the budget that remains and the writer.
unfoldable pub write : ℕ → CaptureWriter → Bytes → ℕ × (ℕ × CaptureWriter)
unfolding reserve
write remaining w p =
    if length p == 0
    then (0, (remaining, w))
    else let (n, remaining') = reserve remaining (length p) in
      (
        length p,
        (
          remaining',
          record {
            buf = if ltb 0 n then w.buf ++ take n p else w.buf;
            truncated = w.truncated || not (n == length p);
          },
        ),
      )

-- CaptureWriter.String
unfoldable pub output : CaptureWriter → Bytes
output w =
    if not w.truncated
    then w.buf
    else if length w.buf == 0
    then []
    else if leb (length output_truncation_notice) (length w.buf)
    then take (length w.buf - length output_truncation_notice) w.buf ++ output_truncation_notice
    else take (length w.buf) output_truncation_notice

-- The two writers of NewCaptureWriters and their budget.
pub record Capture : Type 0 where
  pub remaining : ℕ
  pub stdout : CaptureWriter
  pub stderr : CaptureWriter

abbrev pub new_capture_writers : Capture
new_capture_writers = record {
  remaining = command_output_total_capture_limit;
  stdout = new_writer;
  stderr = new_writer;
}

pub data Chunk : Type 0 where
  to_stdout to_stderr : Bytes → Chunk

unfoldable pub capture : Capture → Chunk → Capture
unfolding write
capture c (to_stdout p) =
    let (_, (remaining, w)) = write c.remaining c.stdout p in
    record c { remaining = remaining; stdout = w }
capture c (to_stderr p) =
    let (_, (remaining, w)) = write c.remaining c.stderr p in
    record c { remaining = remaining; stderr = w }

unfoldable pub capture_all : Capture → List Chunk → Capture
capture_all c [] = c
capture_all c (p ∷ ps) = capture_all (capture c p) ps
