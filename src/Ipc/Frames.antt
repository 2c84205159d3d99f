-- ===== src/Ipc/Frames.antt =====
-- The lines that the codec of internal/ipc/jsonrpc writes and reads.
use haro.Prelude.{
  ℕ, zero, suc, ◌+◌, ◌≤◌, Bool, true, false, some, List, [], ◌∷◌, ◌++◌, not, ◌≡◌, refl, sym, ◌∙◌,
  ap, nat_beq, if◌then◌else◌, length, length-append, all, leb, ltb, Bytes, arith, Bool-cases, inl,
  inr,
}
use haro.Ipc.Jsonrpc.{
  max_message_size, newline, Kind, buffered, left_over, Json, Message, Wire, Writer, Reader, Answer,
  done, failed, end_of_file, message_too_large, line, oversized, skip_line, read_line, decode_line,
  decode_message, encode_and_write,
}

-- A text of one line.
abbrev pub has_no_newline : Bytes → Bool
has_no_newline s = all (λ b. not (nat_beq b newline)) s

append_one : (xs ys : Bytes) (b : ℕ) → (xs ++ b ∷ []) ++ ys ≡ xs ++ b ∷ ys
append_one [] ys b = refl
append_one (x ∷ xs) ys b = ap (λ zs. x ∷ zs) (append_one xs ys b)

append_nothing : (xs : Bytes) → xs ++ [] ≡ xs
append_nothing [] = refl
append_nothing (x ∷ xs) = ap (λ zs. x ∷ zs) (append_nothing xs)

append_append : (xs ys zs : Bytes) → (xs ++ ys) ++ zs ≡ xs ++ (ys ++ zs)
append_append [] ys zs = refl
append_append (x ∷ xs) ys zs = ap (λ l. x ∷ l) (append_append xs ys zs)

skip_line_lem :
    (data_ rest : Bytes) → has_no_newline data_ ≡ true → skip_line (data_ ++ newline ∷ rest) ≡ rest
unfolding skip_line
skip_line_lem [] rest h = refl
skip_line_lem (b ∷ data_) rest h = elim (Bool-cases (nat_beq b newline)) [
  | inl bad ↦ absurd (ground (arith, h, bad))
  | inr good ↦ rw (good, skip_line) (skip_line_lem data_ rest (rw good at h))
]

read_line_lem :
    (broken any_ : Bool) (buffer data_ rest : Bytes)
    → has_no_newline data_ ≡ true
    → length buffer ≤ max_message_size
    → read_line broken any_ buffer (data_ ++ newline ∷ rest) ≡ (
        if leb (length buffer + length data_) max_message_size
        then line (buffer ++ data_) rest
        else oversized rest)
unfolding read_line
read_line_lem broken any_ buffer [] rest h short =
    let fits : leb (length buffer + 0) max_message_size ≡ true = ground (arith, short) in
    rw fits (ap (λ b. line b rest) (sym (append_nothing buffer)))
read_line_lem broken any_ buffer (b ∷ data_) rest h short = elim (Bool-cases (nat_beq b newline)) [
  | inl bad ↦ absurd (ground (arith, h, bad))
  | inr good ↦ elim (Bool-cases (leb max_message_size (length buffer))) [
    | inl full ↦
        let over : leb (length buffer + suc (length data_)) max_message_size ≡ false =
          ground (arith, full) in
        rw (good, full, over, read_line) (ap oversized (skip_line_lem data_ rest (rw good at h)))
    | inr room ↦
        let longer : length (buffer ++ b ∷ []) ≡ length buffer + 1 =
          omega (arith, length-append buffer (b ∷ [])) in
        let later =
          read_line_lem broken true (buffer ++ b ∷ []) data_ rest (rw good at h)
            (ground (arith, room, longer)) in
        let same : (length (buffer ++ b ∷ []) + length data_) ≡ length buffer + suc (length data_) =
          omega (arith, longer) in
        rw (good, room, read_line) (rw (same, append_one buffer data_ b) at later)
  ]
]

module _ {V : Type 0} (json : Json V) where
  -- What DecodeMessage answers depends on the next line alone: a line of at most 10 MiB is decoded, a
  -- longer one is refused. A *bufio.Reader then stands at the line behind it; another source is behind
  -- that by what the call has read ahead.
  pub decode_message-line :
      (broken : Bool) (kind : Kind) (data_ rest : Bytes)
      → has_no_newline data_ ≡ true
      → decode_message json
          (record { rest = data_ ++ newline ∷ rest; is_broken = broken; kind = kind })
        ≡ (
          (if leb (length data_) max_message_size
              then decode_line json data_
              else failed message_too_large),
          record {
            rest = left_over kind (data_ ++ newline ∷ rest) rest;
            is_broken = broken;
            kind = kind;
          },
        )
  unfolding decode_message
  decode_message-line broken kind data_ rest h =
      let same : 0 + length data_ ≡ length data_ = omega arith in
      rw (read_line_lem broken false [] data_ rest h (omega arith), decode_message)
        (elim (Bool-cases (leb (length data_) max_message_size)) [
          | inl fits ↦ rw (same, fits) refl
          | inr over ↦ rw (same, over) refl
        ])

  -- Messages that are written one after the other.
  abbrev pub write_all : List Wire → Writer → Writer
  write_all [] w = w
  write_all (v ∷ vs) w = write_all vs (encode_and_write json v w).1

  -- What `n` calls of DecodeMessage answer.
  abbrev pub read_all : ℕ → Reader → List (Answer (Message V))
  read_all zero r = []
  read_all (suc n) r = let (answer, r') = decode_message json r in answer ∷ read_all n r'

  -- Each message has a text of one line that is short enough.
  abbrev pub Framed : List Wire → List Bytes → Type 0
  Framed [] [] = Unit
  Framed [] (d ∷ ds) = ⊥
  Framed (v ∷ vs) [] = ⊥
  Framed (v ∷ vs) (d ∷ ds) =
      (json.marshal_wire v ≡ some d)
      × (has_no_newline d ≡ true)
      × (length d ≤ max_message_size)
      × Framed vs ds

  abbrev pub lines : List Bytes → Bytes
  lines [] = []
  lines (d ∷ ds) = d ++ newline ∷ lines ds

  abbrev pub decode_all : List Bytes → List (Answer (Message V))
  decode_all [] = failed end_of_file ∷ []
  decode_all (d ∷ ds) = decode_line json d ∷ decode_all ds

  abbrev writer : Bytes → Writer
  writer s = record { written = s; is_open = true }

  encode_and_write_lem :
      (v : Wire) (d s : Bytes)
      → json.marshal_wire v ≡ some d
      → length d ≤ max_message_size
      → encode_and_write json v (writer s) ≡ (done tt, writer (s ++ (d ++ newline ∷ [])))
  unfolding encode_and_write
  encode_and_write_lem v d s e short =
      let fits : ltb max_message_size (length d) ≡ false = ground (arith, short) in
      rw (e, encode_and_write) (rw fits refl)

  write_all_lem :
      (vs : List Wire) (ds : List Bytes) (s : Bytes)
      → Framed vs ds
      → write_all vs (writer s) ≡ writer (s ++ lines ds)
  write_all_lem [] [] s framed = ap writer (sym (append_nothing s))
  write_all_lem [] (d ∷ ds) s framed = absurd framed
  write_all_lem (v ∷ vs) [] s framed = absurd framed
  write_all_lem (v ∷ vs) (d ∷ ds) s (e, one_line, short, framed) =
      let one = encode_and_write_lem v d s e short in
      let later = write_all_lem vs ds (s ++ (d ++ newline ∷ [])) framed in
      let same = append_append s (d ++ newline ∷ []) (lines ds) in
      let same' = append_one d (lines ds) newline in
      ap (λ (p : Answer Unit × Writer). write_all vs p.1) one
      ∙ (later ∙ ap writer (same ∙ ap (λ l. s ++ l) same'))

  read_all_lem :
      (vs : List Wire) (ds : List Bytes)
      → Framed vs ds
      → read_all (suc (length vs)) (record { rest = lines ds; is_broken = false; kind = buffered })
        ≡ decode_all ds
  unfolding decode_message read_line
  read_all_lem [] [] framed = refl
  read_all_lem [] (d ∷ ds) framed = absurd framed
  read_all_lem (v ∷ vs) [] framed = absurd framed
  read_all_lem (v ∷ vs) (d ∷ ds) (e, one_line, short, framed) =
      let fits : leb (length d) max_message_size ≡ true = ground (arith, short) in
      let first = decode_message-line false buffered d (lines ds) one_line in
      let later = read_all_lem vs ds framed in
      ap (λ (p : Answer (Message V) × Reader). p.0 ∷ read_all (suc (length vs)) p.1) first
      ∙ (rw fits (ap (λ l. decode_line json d ∷ l) later))

  -- Messages whose JSON texts have no newline and at most 10 MiB, written one after the other and
  -- then read with DecodeMessage from a *bufio.Reader, come out in order, each as what its own text
  -- decodes to, and then io.EOF.
  pub decode_message-encode_and_write :
      (vs : List Wire) (ds : List Bytes)
      → Framed vs ds
      → read_all (suc (length vs)) (record {
        rest = (write_all vs (record { written = []; is_open = true })).written;
        is_broken = false;
        kind = buffered;
      })
        ≡ decode_all ds
  decode_message-encode_and_write vs ds framed =
      ap
        (λ (w : Writer).
          read_all (suc (length vs))
            (record { rest = w.written; is_broken = false; kind = buffered }))
        (write_all_lem vs ds [] framed)
      ∙ read_all_lem vs ds framed
