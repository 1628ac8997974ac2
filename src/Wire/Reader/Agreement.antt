-- ===== src/Wire/Reader/Agreement.antt =====
-- Reading a frame from a stream agrees with parsing the same bytes as a slice.
use qup.Prelude.{
  ℕ, ◌+◌, ◌*◌, ◌<◌, ◌≤◌, false, ◌%◌, ◌≡◌, refl, sym, ap, ◌∙◌, inl, inr, Bool-cases, [], ◌∷◌, ◌++◌,
  append_assoc, Bytes, Result, ok, err, map_err, length, ltb, ltb→lt, if◌then◌else◌, arith,
}
use qup.Prelude.Exec.{Exec, continue, raise, ◌>>=◌}
use qup.Word.{AllBytes, from_be_bytes}
use qup.Word.Sum.{total-append, fold_wrapping-total}
use qup.Wire.Error.{WireDirection}
use qup.Wire.Checksum.{frame_sum, frame_sum-total}
use qup.Wire.Frame.{FrameView, parse_frame}
use qup.Wire.Frame.Layout.{IsWholeFrame, assemble, judge, parse_frame-judge}
use qup.Wire.Frame.Sum.{frame_sum_iff}
use qup.Wire.Reader.Whole.{word_is, array_three, array_one}
use qup.Wire.Reader.{
  ByteRead, ReadFrameError, transport, buffer_too_small, frame, byte_at, mismatch_sum, check_frame,
  read, read_frame,
}

module _ (opcode hi lo : ℕ) (payload : Bytes) (checksum : ℕ)
    (ok_f : AllBytes (assemble opcode hi lo payload checksum))
    (len : length payload ≡ hi * 256 + lo) where
  mismatch_sum_is :
      mismatch_sum (opcode ∷ hi ∷ lo ∷ []) payload checksum
      ≡ frame_sum (assemble opcode hi lo payload checksum)
  unfolding mismatch_sum
  mismatch_sum_is = omega (
    arith,
    frame_sum-total (assemble opcode hi lo payload checksum),
    total-append payload (checksum ∷ []),
    fold_wrapping-total (((opcode + hi) % 256 + lo) % 256) payload (omega arith),
  )

  -- The checks of `read_frame` on the bytes that it has read are those of `parse_frame`.
  check_frame-judge :
      {E : Type 0} (direction : WireDirection)
      → check_frame {E = E} direction (opcode ∷ hi ∷ lo ∷ []) payload checksum
        ≡ map_err frame (judge direction opcode hi lo payload checksum)
  unfolding check_frame
  check_frame-judge direction =
      ground (
        arith,
        frame_sum_iff opcode hi lo payload checksum ok_f len,
        word_is hi lo,
        mismatch_sum_is,
      )

-- How a call of `read_frame` ends.
pub data Outcome {R E : Type 0} (reader : ByteRead R E) (direction : WireDirection) (available : ℕ)
    (r : R) (out : Result FrameView (ReadFrameError E)) (r' : R) : Type 0 where
  -- A read failed, and its error is passed on.
  stopped :
      (n : ℕ) (s : R) (e : E)
      → reader.read_exact n s ≡ (err e, r')
      → out ≡ err (transport e)
      → Outcome reader direction available r out r'
  -- The header was taken, and its payload does not fit the buffer.
  too_small :
      (opcode hi lo : ℕ)
      → reader.unread r ≡ opcode ∷ hi ∷ lo ∷ reader.unread r'
      → available < hi * 256 + lo
      → out ≡ err (buffer_too_small (hi * 256 + lo) available)
      → Outcome reader direction available r out r'
  -- One whole frame was taken, whose payload fits the buffer, and the answer is that of
  -- `parse_frame` on its bytes.
  framed :
      (bytes : Bytes) (whole : IsWholeFrame bytes)
      → whole.hi * 256 + whole.lo ≤ available
      → reader.unread r ≡ bytes ++ reader.unread r'
      → out ≡ map_err frame (parse_frame direction bytes)
      → Outcome reader direction available r out r'

ltb→le : (a b : ℕ) → ltb a b ≡ false → b ≤ a
ltb→le a b h = ground arith

AllBytes-prefix : (xs ys : Bytes) → AllBytes (xs ++ ys) → AllBytes xs
AllBytes-prefix [] ys h = tt
AllBytes-prefix (x ∷ xs) ys h = (h.0, AllBytes-prefix xs ys h.1)

module _ {R E : Type 0} (reader : ByteRead R E) (direction : WireDirection) (available : ℕ) (r : R)
    (ok_r : AllBytes (reader.unread r)) where
  -- Once the three reads are done.
  finished :
      (header payload last : Bytes) (r1 r2 r3 : R)
      → (length header ≡ 3) × (reader.unread r ≡ header ++ reader.unread r1)
      → (length payload ≡ from_be_bytes (byte_at header 1 ∷ byte_at header 2 ∷ []))
        × (reader.unread r1 ≡ payload ++ reader.unread r2)
      → (length last ≡ 1) × (reader.unread r2 ≡ last ++ reader.unread r3)
      → from_be_bytes (byte_at header 1 ∷ byte_at header 2 ∷ []) ≤ available
      → Outcome reader direction available r
          (check_frame direction header payload (byte_at last 0))
          r3
  finished header payload last r1 r2 r3 h p l fits =
      let op = byte_at header 0 in
      let hi = byte_at header 1 in
      let lo = byte_at header 2 in
      let c = byte_at last 0 in
      let header_is = array_three header h.0 in
      let bytes = assemble op hi lo payload c in
      let split : reader.unread r ≡ bytes ++ reader.unread r3 =
        h.1
        ∙ ap (λ t. header ++ t)
            (p.1
              ∙ ap (λ t. payload ++ t) (l.1 ∙ ap (λ t. t ++ reader.unread r3) (array_one last l.0)))
        ∙ ap (λ t. t ++ (payload ++ (c ∷ [] ++ reader.unread r3))) header_is
        ∙ ap (λ t. op ∷ hi ∷ lo ∷ t) (sym (append_assoc payload (c ∷ []) (reader.unread r3))) in
      let ok_f = AllBytes-prefix bytes (reader.unread r3) (rw split at ok_r) in
      let whole : IsWholeFrame bytes = record {
        opcode = op;
        hi = hi;
        lo = lo;
        payload = payload;
        checksum = c;
        layout = refl;
        announced = p.0 ∙ word_is hi lo;
      } in
      framed bytes whole (rw (word_is hi lo) at fits) split (
        ap (λ t. check_frame direction t payload c) header_is
        ∙ check_frame-judge op hi lo payload c ok_f (p.0 ∙ word_is hi lo) direction
        ∙ ap (map_err frame) (sym (parse_frame-judge direction op hi lo payload c)))

  abbrev Ends : Result FrameView (ReadFrameError E) × R → Type 0
  Ends x = Outcome reader direction available r x.0 x.1

  -- What follows each read in `read_frame`.
  abbrev last_part : Bytes → Bytes → Bytes → Exec R (ReadFrameError E) FrameView
  last_part header payload last s = (check_frame direction header payload (byte_at last 0), s)

  abbrev payload_part : Bytes → Bytes → Exec R (ReadFrameError E) FrameView
  payload_part header payload = read reader 1 >>= last_part header payload

  abbrev header_part : Bytes → Exec R (ReadFrameError E) FrameView
  header_part header =
      let required = from_be_bytes (byte_at header 1 ∷ byte_at header 2 ∷ []) in
      if ltb available required
      then raise (buffer_too_small required available)
      else (read reader required >>= payload_part header)

  abbrev Header : Bytes → R → Type 0
  Header header s = (length header ≡ 3) × (reader.unread r ≡ header ++ reader.unread s)

  after_payload :
      (header payload : Bytes) (r1 r2 : R) (x : Result Bytes E × R)
      → Header header r1
      → (length payload ≡ from_be_bytes (byte_at header 1 ∷ byte_at header 2 ∷ []))
        × (reader.unread r1 ≡ payload ++ reader.unread r2)
      → from_be_bytes (byte_at header 1 ∷ byte_at header 2 ∷ []) ≤ available
      → reader.read_exact 1 r2 ≡ x
      → Ends (continue (map_err transport x.0, x.1) (last_part header payload))
  after_payload header payload r1 r2 (err e, r3) h p fits x = stopped 1 r2 e x refl
  after_payload header payload r1 r2 (ok last, r3) h p fits x =
      finished header payload last r1 r2 r3 h p (reader.fills 1 r2 r3 last x) fits

  after-Header :
      (header : Bytes) (r1 : R) (x : Result Bytes E × R)
      → Header header r1
      → from_be_bytes (byte_at header 1 ∷ byte_at header 2 ∷ []) ≤ available
      → reader.read_exact (from_be_bytes (byte_at header 1 ∷ byte_at header 2 ∷ [])) r1 ≡ x
      → Ends (continue (map_err transport x.0, x.1) (payload_part header))
  after-Header header r1 (err e, r2) h fits x = stopped _ r1 e x refl
  after-Header header r1 (ok payload, r2) h fits x =
      after_payload header payload r1 r2 (reader.read_exact 1 r2) h (reader.fills _ r1 r2 payload x)
        fits refl

  header_part-Ends : (header : Bytes) (r1 : R) → Header header r1 → Ends (header_part header r1)
  header_part-Ends header r1 h =
      let required = from_be_bytes (byte_at header 1 ∷ byte_at header 2 ∷ []) in
      elim (Bool-cases (ltb available required)) [
        | inl small ↦ rw small (
            too_small (byte_at header 0) (byte_at header 1) (byte_at header 2)
              (h.1 ∙ ap (λ t. t ++ reader.unread r1) (array_three header h.0))
              (rw (word_is (byte_at header 1) (byte_at header 2)) at
                (ltb→lt available required small))
              (ap (λ n. err (buffer_too_small n available))
                (word_is (byte_at header 1) (byte_at header 2))))
        | inr fits ↦ rw fits (
            after-Header header r1 (reader.read_exact required r1) h
              (ltb→le available required fits) refl)
      ]

  start :
      (x : Result Bytes E × R)
      → reader.read_exact 3 r ≡ x
      → Ends (continue (map_err transport x.0, x.1) header_part)
  start (err e, r1) x = stopped 3 r e x refl
  start (ok header, r1) x = header_part-Ends header r1 (reader.fills 3 r r1 header x)

-- `read_frame` ends in one of three ways: a read of the transport failed and its error is the
-- answer; the header was taken and announces more payload than the buffer holds; or exactly the
-- bytes of one whole frame were taken from the stream, with a payload that fits the buffer, and the
-- answer is the one that `parse_frame` gives on them.
pub read_frame-Outcome :
    {R E : Type 0} (reader : ByteRead R E) (direction : WireDirection) (available : ℕ) (r : R)
    → AllBytes (reader.unread r)
    → Outcome reader direction available r
        (read_frame reader direction available r).0
        (read_frame reader direction available r).1
unfolding read_frame
read_frame-Outcome reader direction available r ok_r =
    start reader direction available r ok_r (reader.read_exact 3 r) refl
