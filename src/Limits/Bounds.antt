-- ===== src/Limits/Bounds.antt =====
-- The bounds of the captured output.
use Prim.Native.Nat.{min}
use mathlib.Core.List.{append-nil, append_assoc}
use haro.Prelude.{
  ℕ, ◌+◌, ◌-◌, ◌≤◌, ◌≡◌, refl, sym, ◌∙◌, false, nat_eq, List, [], ◌∷◌, ◌++◌, length, length-append,
  length-take, take, take_all, Bytes, arith,
}
use haro.Limits.{
  CaptureWriter, Capture, Chunk, reserve, write, output, capture, capture_all, new_capture_writers,
  command_output_total_capture_limit, output_truncation_notice, to_stdout, to_stderr,
}

-- A reservation is the smaller of what is asked for and what remains.
reserve_smaller :
    (remaining size : ℕ)
    → reserve remaining size ≡ (min size remaining, remaining - min size remaining)
unfolding reserve
reserve_smaller remaining size = ground arith

reserve_all :
    (remaining size : ℕ) → size ≤ remaining → reserve remaining size ≡ (size, remaining - size)
unfolding reserve
reserve_all remaining size fits = ground arith

-- String shows exactly as many bytes as the writer has retained, whether or not it says that the
-- output was truncated.
pub length-output : (w : CaptureWriter) → length (output w) ≡ length w.buf
unfolding output
length-output w =
    let start = length w.buf - length output_truncation_notice in
    ground (
      arith,
      length-append (take start w.buf) output_truncation_notice,
      length-take start w.buf,
      length-take (length w.buf) output_truncation_notice,
    )

module _ (remaining : ℕ) (w : CaptureWriter) (p : Bytes) where
  -- Write reports every byte as consumed.
  write_consumes : (write remaining w p).0 ≡ length p
  unfolding write
  write_consumes = ground arith

  write_budget : (write remaining w p).1.0 ≡ remaining - min (length p) remaining
  unfolding write reserve
  write_budget = ground arith

  write_retains : length (write remaining w p).1.1.buf ≡ length w.buf + min (length p) remaining
  unfolding write reserve
  write_retains = ground (
    arith,
    length-append w.buf (take (reserve remaining (length p)).0 p),
    length-take (reserve remaining (length p)).0 p,
  )

abbrev pub retained : Capture → ℕ
retained c = length c.stdout.buf + length c.stderr.buf

abbrev pub chunk_length : Chunk → ℕ
chunk_length (to_stdout p) = length p
chunk_length (to_stderr p) = length p

abbrev pub written : List Chunk → ℕ
written [] = 0
written (p ∷ ps) = chunk_length p + written ps

-- What the run writes to the standard output.
abbrev pub written_stdout : List Chunk → Bytes
written_stdout [] = []
written_stdout (to_stdout p ∷ ps) = p ++ written_stdout ps
written_stdout (to_stderr p ∷ ps) = written_stdout ps

capture-remaining :
    (c : Capture) (p : Chunk)
    → (capture c p).remaining ≡ c.remaining - min (chunk_length p) c.remaining
unfolding capture
capture-remaining c (to_stdout p) = write_budget c.remaining c.stdout p
capture-remaining c (to_stderr p) = write_budget c.remaining c.stderr p

retained-capture :
    (c : Capture) (p : Chunk)
    → retained (capture c p) ≡ retained c + min (chunk_length p) c.remaining
unfolding capture
retained-capture c (to_stdout p) = omega (arith, write_retains c.remaining c.stdout p)
retained-capture c (to_stderr p) = omega (arith, write_retains c.remaining c.stderr p)

retained-capture_all :
    (c : Capture) (ps : List Chunk)
    → retained (capture_all c ps) ≡ retained c + min (written ps) c.remaining
unfolding capture_all
retained-capture_all c [] = omega arith
retained-capture_all c (p ∷ ps) =
    omega
      (arith, retained-capture_all (capture c p) ps, retained-capture c p, capture-remaining c p)

-- However the writes to the two streams interleave, the two writers together retain all that was
-- written, up to the shared limit, and exactly the limit beyond it.
pub capture_shares_limit :
    (ps : List Chunk)
    → length (output (capture_all new_capture_writers ps).stdout)
        + length (output (capture_all new_capture_writers ps).stderr)
      ≡ min (written ps) command_output_total_capture_limit
capture_shares_limit ps =
    let c = capture_all new_capture_writers ps in
    omega (
      arith,
      length-output c.stdout,
      length-output c.stderr,
      retained-capture_all new_capture_writers ps,
    )

write_whole :
    (remaining : ℕ) (w : CaptureWriter) (p : Bytes)
    → length p ≤ remaining
    → ((write remaining w p).1.1.buf ≡ w.buf ++ p)
      × ((write remaining w p).1.1.truncated ≡ w.truncated)
unfolding write
write_whole remaining w [] fits = (sym (append-nil w.buf), refl)
write_whole remaining w (x ∷ xs) fits =
    rw (reserve_all remaining (length (x ∷ xs)) fits, write)
      (rw (take_all (length xs) xs (omega arith)) (ground arith, ground arith))

stdout_whole :
    (c : Capture) (p : Chunk)
    → chunk_length p ≤ c.remaining
    → ((capture c p).stdout.buf ≡ c.stdout.buf ++ written_stdout (p ∷ []))
      × ((capture c p).stdout.truncated ≡ c.stdout.truncated)
unfolding capture
stdout_whole c (to_stdout p) fits = rw (append-nil p) (write_whole c.remaining c.stdout p fits)
stdout_whole c (to_stderr p) fits = (sym (append-nil c.stdout.buf), refl)

written_stdout_cons :
    (p : Chunk) (ps : List Chunk)
    → written_stdout (p ∷ ps) ≡ written_stdout (p ∷ []) ++ written_stdout ps
written_stdout_cons (to_stdout p) ps = rw (append-nil p) refl
written_stdout_cons (to_stderr p) ps = refl

capture_all_whole :
    (c : Capture) (ps : List Chunk)
    → written ps ≤ c.remaining
    → c.stdout.truncated ≡ false
    → ((capture_all c ps).stdout.buf ≡ c.stdout.buf ++ written_stdout ps)
      × ((capture_all c ps).stdout.truncated ≡ false)
unfolding capture_all
capture_all_whole c [] fits whole = (sym (append-nil c.stdout.buf), whole)
capture_all_whole c (p ∷ ps) fits whole =
    let (kept, same) = stdout_whole c p (omega arith) in
    let (kept', whole') =
      capture_all_whole (capture c p) ps (omega (arith, capture-remaining c p)) (same ∙ whole) in
    (
      rw (kept', kept, written_stdout_cons p ps)
          (append_assoc c.stdout.buf (written_stdout (p ∷ [])) (written_stdout ps)),
      whole',
    )

-- Where a run writes no more than the limit, the standard output is shown whole and in order.
pub output-capture_all :
    (ps : List Chunk)
    → written ps ≤ command_output_total_capture_limit
    → output (capture_all new_capture_writers ps).stdout ≡ written_stdout ps
unfolding output
output-capture_all ps fits =
    let (kept, whole) = capture_all_whole new_capture_writers ps fits refl in rw (whole, kept) refl
