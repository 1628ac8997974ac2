-- ===== src/Wire/Reader.antt =====
-- crates/qup-core/src/io/sync.rs and asynch.rs (also behind `Parser::read_frame` and
-- `read_frame_async`). Both files hold the same trait, the same error type and the same function;
-- in the asynchronous one each read is awaited and nothing else happens in between.
pub mod Agreement
pub mod Whole
use qup.Prelude.{
  ℕ, ◌+◌, ◌*◌, ◌≡◌, not, Option, none, some, [], ◌∷◌, ◌++◌, Bytes, Result, ok, err, map_err, length,
  get_elem?, ltb, ◌==◌, if◌then◌else◌,
}
use qup.Prelude.Exec.{Exec, continue, pure, raise, lift, ◌>>=◌}
use qup.Word.{wrapping_add, fold_wrapping, from_be_bytes}
use qup.Wire.Error.{WireDirection, Opcode, FrameError, checksum_mismatch}
use qup.Wire.Opcode.{validate}
use qup.Wire.Checksum.{compute_checksum}
use qup.Wire.Frame.{FrameView, new_view}

-- The trait `ByteRead` (`AsyncByteRead`), which the caller implements. `read_exact n` gives the new
-- content of a buffer of `n` bytes. Of an implementation we assume what its documentation says:
-- a success fills the buffer completely, with the next bytes of the stream.
pub record ByteRead (R E : Type 0) : Type 0 where
  pub read_exact : ℕ → Exec R E Bytes
  pub unread : R → Bytes
  pub fills :
      (n : ℕ) (r r' : R) (bytes : Bytes)
      → read_exact n r ≡ (ok bytes, r')
      → (length bytes ≡ n) × (unread r ≡ bytes ++ unread r')

pub data ReadFrameError (E : Type 0) : Type 0 where
  transport : E → ReadFrameError E
  buffer_too_small : (required : ℕ) → (available : ℕ) → ReadFrameError E
  frame : FrameError → ReadFrameError E

-- array[i], on an array that is long enough
abbrev pub byte_at : Bytes → ℕ → ℕ
byte_at bytes i = elim (get_elem? bytes i) [ none ↦ 0 | some b ↦ b ]

-- The sum that a failed checksum is reported with.
mismatch_sum : Bytes → Bytes → ℕ → ℕ
mismatch_sum header payload checksum =
    let start =
      wrapping_add (wrapping_add (byte_at header 0) (byte_at header 1)) (byte_at header 2) in
    wrapping_add (fold_wrapping start payload) checksum

module _ {E : Type 0} where
  -- What is checked once all bytes are there.
  check_frame : WireDirection → Bytes → Bytes → ℕ → Result FrameView (ReadFrameError E)
  check_frame direction header payload checksum =
      let opcode = byte_at header 0 in
      let len = from_be_bytes (byte_at header 1 ∷ byte_at header 2 ∷ []) in
      let expected = compute_checksum opcode payload in
      let sum = mismatch_sum header payload checksum in
      if not (checksum == expected)
      then err (frame (checksum_mismatch sum))
      else elim (map_err frame (validate opcode direction)) [
        | ok _ ↦ ok (new_view opcode len checksum payload)
        | err e ↦ err e
      ]

module _ {R E : Type 0} (reader : ByteRead R E) where
  abbrev read : ℕ → Exec R (ReadFrameError E) Bytes
  read n r = let (bytes, r') = reader.read_exact n r in (map_err transport bytes, r')

  -- The buffer `payload_buf` counts by its length alone: it is written before it is read.
  unfoldable pub read_frame : WireDirection → ℕ → Exec R (ReadFrameError E) FrameView
  unfolding check_frame mismatch_sum
  read_frame direction available = do
    header ← read 3
    let required = from_be_bytes (byte_at header 1 ∷ byte_at header 2 ∷ [])
    if ltb available required then raise (buffer_too_small required available) else do
      payload ← read required
      checksum ← read 1
      lift (check_frame direction header payload (byte_at checksum 0))
