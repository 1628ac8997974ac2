-- ===== src/Embassy/Sum.antt =====
-- The running checksums of crates/qup-embassy/src/lib.rs: `FrameSum`, over the chunks in which a
-- request is read, and `compute_segmented_checksum`, over the segments of a response.
use qup.Prelude.{
  ℕ, ◌+◌, ◌/◌, ◌%◌, ◌^◌, ◌<◌, ◌≡◌, ap, Option, none, some, List, [], ◌∷◌, ◌++◌, Bytes, Result, ok,
  err, length, length-append, ltb, ltb→lt, ◌==◌, if◌then◌else◌, arith, Bool-cases, inl, inr,
}
use qup.Word.{wrapping_add, wrapping_sub, fold_wrapping, to_be_bytes}
use qup.Word.Sum.{total, total-append, fold_wrapping-total}
use qup.Wire.Error.{Opcode, FrameError, checksum_mismatch}
use qup.Wire.Checksum.{frame_sum, frame_sum-total, compute_checksum, compute_checksum-total}
use qup.Wire.Frame.Layout.{assemble}

-- `FrameSum(u8)` is its byte.
abbrev pub FrameSum : Type 0
FrameSum = ℕ

-- FrameSum::new
unfoldable pub new_sum : Opcode → ℕ → FrameSum
new_sum opcode payload_len =
    wrapping_add (wrapping_add opcode (payload_len / 256 % 256)) (payload_len % 256)

unfoldable pub add_byte : FrameSum → ℕ → FrameSum
add_byte sum byte = wrapping_add sum byte

unfoldable pub add_slice : FrameSum → Bytes → FrameSum
unfolding add_byte
add_slice sum [] = sum
add_slice sum (byte ∷ bytes) = add_slice (add_byte sum byte) bytes

-- FrameSum::finish
unfoldable pub finish_sum : FrameSum → Result (Unit {0}) FrameError
finish_sum sum = if sum == 0 then ok tt else err (checksum_mismatch sum)

-- The bytes of the chunks, one after the other.
abbrev pub join : List Bytes → Bytes
join [] = []
join (chunk ∷ chunks) = chunk ++ join chunks

-- The reads of a request: one `add_slice` for each chunk.
abbrev pub add_chunks : FrameSum → List Bytes → FrameSum
add_chunks sum [] = sum
add_chunks sum (chunk ∷ chunks) = add_chunks (add_slice sum chunk) chunks

add_slice-total :
    (sum : FrameSum) (bytes : Bytes) → sum < 256 → add_slice sum bytes ≡ (sum + total bytes) % 256
unfolding add_slice
add_slice-total sum [] h = omega arith
add_slice-total sum (b ∷ bytes) h =
    omega (arith, add_slice-total ((sum + b) % 256) bytes (omega arith))

add_chunks-total :
    (sum : FrameSum) (chunks : List Bytes)
    → sum < 256
    → add_chunks sum chunks ≡ (sum + total (join chunks)) % 256
add_chunks-total sum [] h = omega arith
add_chunks-total sum (chunk ∷ chunks) h = omega (
  arith,
  add_slice-total sum chunk h,
  add_chunks-total (add_slice sum chunk) chunks (omega (arith, add_slice-total sum chunk h)),
  total-append chunk (join chunks),
)

pub add_chunks-frame_sum :
    (opcode : Opcode) (payload_len checksum : ℕ) (chunks : List Bytes)
    → add_byte (add_chunks (new_sum opcode payload_len) chunks) checksum
      ≡ frame_sum
          (assemble opcode (payload_len / 256 % 256) (payload_len % 256) (join chunks) checksum)
unfolding add_byte new_sum
add_chunks-frame_sum opcode payload_len checksum chunks =
    let hi = payload_len / 256 % 256 in
    let lo = payload_len % 256 in
    omega (
      arith,
      add_chunks-total (((opcode + hi) % 256 + lo) % 256) chunks (omega arith),
      frame_sum-total (assemble opcode hi lo (join chunks) checksum),
      total-append (join chunks) (checksum ∷ []),
    )

-- However a payload is cut into chunks, the running sum of the header, the chunks and the checksum
-- byte is accepted if the sum of the whole frame is zero, and is else refused with that sum.
pub finish_sum-frame_sum :
    (opcode : Opcode) (payload_len checksum : ℕ) (chunks : List Bytes)
    → let sum =
        frame_sum
          (assemble opcode (payload_len / 256 % 256) (payload_len % 256) (join chunks) checksum) in
      finish_sum (add_byte (add_chunks (new_sum opcode payload_len) chunks) checksum)
      ≡ (if sum == 0 then ok tt else err (checksum_mismatch sum))
unfolding finish_sum
finish_sum-frame_sum opcode payload_len checksum chunks =
    rw (add_chunks-frame_sum opcode payload_len checksum chunks)

-- `payload_segments.iter().fold(0, |acc, segment| acc + segment.len())`
abbrev pub segments_len : ℕ → List Bytes → ℕ
segments_len acc [] = acc
segments_len acc (segment ∷ segments) = segments_len (acc + length segment) segments

-- The two nested `for` loops.
fold_segments : ℕ → List Bytes → ℕ
fold_segments acc [] = acc
fold_segments acc (segment ∷ segments) = fold_segments (fold_wrapping acc segment) segments

-- `none` is the panic of `expect`.
unfoldable pub compute_segmented_checksum : Opcode → List Bytes → Option ℕ
unfolding fold_segments
compute_segmented_checksum opcode payload_segments =
    let payload_len = segments_len 0 payload_segments in
    let acc = wrapping_add (wrapping_add opcode (payload_len / 256 % 256)) (payload_len % 256) in
    if ltb payload_len (2 ^ 16)
    then some (wrapping_sub 0 (fold_segments acc payload_segments))
    else none

segments_len-join :
    (acc : ℕ) (segments : List Bytes) → segments_len acc segments ≡ acc + length (join segments)
segments_len-join acc [] = omega arith
segments_len-join acc (segment ∷ segments) = omega (
  arith,
  segments_len-join (acc + length segment) segments,
  length-append segment (join segments),
)

fold_segments-total :
    (acc : ℕ) (segments : List Bytes)
    → acc < 256
    → fold_segments acc segments ≡ (acc + total (join segments)) % 256
unfolding fold_segments
fold_segments-total acc [] h = omega arith
fold_segments-total acc (segment ∷ segments) h = omega (
  arith,
  fold_wrapping-total acc segment h,
  fold_segments-total (fold_wrapping acc segment) segments
      (omega (arith, fold_wrapping-total acc segment h)),
  total-append segment (join segments),
)

segments_sum :
    (opcode : Opcode) (segments : List Bytes)
    → let len = length (join segments) in
      len < 2 ^ 16
      → wrapping_sub 0 (
          fold_segments (wrapping_add (wrapping_add opcode (len / 256 % 256)) (len % 256)) segments)
        ≡ compute_checksum opcode (join segments)
unfolding to_be_bytes
segments_sum opcode segments lt =
    let len = length (join segments) in
    omega (
      arith,
      fold_segments-total (((opcode + len / 256 % 256) % 256 + len % 256) % 256) segments
          (omega arith),
      compute_checksum-total opcode (join segments),
    )

-- The checksum over segments is the checksum of the payload that they make up, and the length that
-- does not fit sixteen bits is the one that panics.
pub compute_segmented_checksum-join :
    (opcode : Opcode) (segments : List Bytes)
    → compute_segmented_checksum opcode segments ≡ (
        if ltb (length (join segments)) (2 ^ 16)
        then some (compute_checksum opcode (join segments))
        else none)
unfolding compute_segmented_checksum
compute_segmented_checksum-join opcode segments =
    let payload = join segments in
    let len = segments_len-join 0 segments in
    elim (Bool-cases (ltb (length payload) (2 ^ 16))) [
      | inl fits ↦
          let same : segments_len 0 segments ≡ length payload = omega arith in
          rw (same, fits) (ap some (segments_sum opcode segments (ltb→lt _ _ fits)))
      | inr long ↦
          let same : segments_len 0 segments ≡ length payload = omega arith in rw (same, long)
    ]
