-- ===== src/Client/Encode/Frames.antt =====
-- `build_frame` and `parse_frame` are inverse.
use qup.Prelude.{
  ℕ, ◌+◌, ◌*◌, ◌/◌, ◌%◌, ◌^◌, ◌<◌, ◌≤◌, ◌≡◌, ◌≢◌, refl, sym, ap, ◌∙◌, true, inl, inr, Bool-cases,
  [], ◌∷◌, ◌++◌, Bytes, ok, length, arith, ltb, lt→ltb, ==_refl,
}
use qup.Word.{IsByte, AllBytes, to_be_bytes}
use qup.Word.Sum.{total-append}
use qup.Wire.Error.{WireDirection, Opcode}
use qup.Wire.Opcode.{validate}
use qup.Wire.Checksum.{frame_sum, compute_checksum, frame_sum-total, compute_checksum-total}
use qup.Wire.Frame.{FrameView, new_view, parse_frame}
use qup.Wire.Frame.Sum.{frame_sum_iff}
use qup.Wire.Frame.Layout.{assemble, judge, parse_frame-judge}
use qup.Client.Encode.{build_frame}

-- The view that belongs to an opcode and a payload.
abbrev pub view_of : Opcode → Bytes → FrameView
view_of opcode payload = new_view opcode (length payload) (compute_checksum opcode payload) payload

module _ (opcode : Opcode) (payload : Bytes) where
  pub length_hi : ℕ
  length_hi = length payload / 256 % 256

  pub length_lo : ℕ
  length_lo = length payload % 256

  pub build_frame-assemble :
      {frame : Bytes}
      → build_frame opcode payload ≡ ok frame
      → (frame ≡ assemble opcode length_hi length_lo payload (compute_checksum opcode payload))
        × (length payload < 2 ^ 16)
  unfolding build_frame to_be_bytes length_hi length_lo
  build_frame-assemble h = ground arith

  length_bytes : length payload < 2 ^ 16 → length_hi * 256 + length_lo ≡ length payload
  unfolding length_hi length_lo
  length_bytes h = omega arith

  sum_zero :
      length payload < 2 ^ 16
      → frame_sum (assemble opcode length_hi length_lo payload (compute_checksum opcode payload))
        ≡ 0
  unfolding length_hi length_lo to_be_bytes
  sum_zero h =
      let frame = assemble opcode length_hi length_lo payload (compute_checksum opcode payload) in
      omega (
        arith,
        frame_sum-total frame,
        compute_checksum-total opcode payload,
        total-append payload (compute_checksum opcode payload ∷ []),
      )

-- A frame that the client builds around an opcode legal in a direction is accepted in that
-- direction, with the opcode, the payload and the checksum that went in.
pub parse_frame-build_frame :
    (direction : WireDirection) (opcode : Opcode) (payload frame : Bytes)
    → build_frame opcode payload ≡ ok frame
    → validate opcode direction ≡ ok tt
    → parse_frame direction frame ≡ ok (view_of opcode payload)
parse_frame-build_frame direction opcode payload frame built legal =
    let (frame_is, lt) = build_frame-assemble opcode payload built in
    let hi = length_hi opcode payload in
    let lo = length_lo opcode payload in
    let checksum = compute_checksum opcode payload in
    ap (parse_frame direction) frame_is
    ∙ parse_frame-judge direction opcode hi lo payload checksum
    ∙ rw (length_bytes opcode payload lt, sum_zero opcode payload lt)
        (rw (==_refl (length payload)) (rw legal))

-- Every list of four bytes at least is a frame in parts.
pub record Parts (frame : Bytes) : Type 0 where
  pub opcode : Opcode
  pub hi : ℕ
  pub lo : ℕ
  pub payload : Bytes
  pub checksum : ℕ
  pub assembled : frame ≡ assemble opcode hi lo payload checksum

-- The last byte apart.
unsnoc : (b : ℕ) (bs : Bytes) → (init : Bytes) × (last : ℕ) × (b ∷ bs ≡ init ++ last ∷ [])
unsnoc b [] = ([], b, refl)
unsnoc b (c ∷ bs) = let (init, last, e) = unsnoc c bs in (b ∷ init, last, ap (◌∷◌ b) e)

pub Parts-of : (frame : Bytes) → 4 ≤ length frame → Parts frame
Parts-of (opcode ∷ hi ∷ lo ∷ b ∷ bs) h =
    let (payload, checksum, e) = unsnoc b bs in
    record {
      opcode = opcode;
      hi = hi;
      lo = lo;
      payload = payload;
      checksum = checksum;
      assembled = ap (λ t. opcode ∷ hi ∷ lo ∷ t) e;
    }
Parts-of [] h = absurd (omega arith)
Parts-of (a ∷ []) h = absurd (omega arith)
Parts-of (a ∷ b ∷ []) h = absurd (omega arith)
Parts-of (a ∷ b ∷ c ∷ []) h = absurd (omega arith)

-- What an accepted frame in parts satisfies.
pub record Accepted (direction : WireDirection) (opcode : Opcode) (hi lo : ℕ) (payload : Bytes)
    (checksum : ℕ) (view : FrameView) : Type 0 where
  pub view_is : new_view opcode (hi * 256 + lo) checksum payload ≡ view
  pub length_is : length payload ≡ hi * 256 + lo
  pub sum_is : frame_sum (assemble opcode hi lo payload checksum) ≡ 0
  pub legal : validate opcode direction ≡ ok tt

module _ (direction : WireDirection) (opcode : Opcode) (hi lo : ℕ) (payload : Bytes) (checksum : ℕ)
    (view : FrameView) where
  judge-ok :
      judge direction opcode hi lo payload checksum ≡ ok view
      → Accepted direction opcode hi lo payload checksum view
  judge-ok h = record {
    view_is = ground arith;
    length_is = ground arith;
    sum_is = ground arith;
    legal = ground arith;
  }

rebuild :
    (opcode hi lo : ℕ) (payload : Bytes) (checksum : ℕ)
    → IsByte hi
    → IsByte lo
    → length payload ≡ hi * 256 + lo
    → compute_checksum opcode payload ≡ checksum
    → build_frame opcode payload ≡ ok (assemble opcode hi lo payload checksum)
unfolding build_frame to_be_bytes
rebuild opcode hi lo payload checksum h l e c =
    let short : ltb (length payload) (2 ^ 16) ≡ true = lt→ltb _ _ (omega arith) in
    let hi_is : length payload / 256 % 256 ≡ hi = omega arith in
    let lo_is : length payload % 256 ≡ lo = omega arith in rw short (rw (hi_is, lo_is, c))

-- A frame is built by the client from the opcode and payload of a view.
pub record Rebuilds (direction : WireDirection) (frame : Bytes) (view : FrameView) : Type 0 where
  pub built : build_frame view.header.opcode view.payload ≡ ok frame
  pub legal : validate view.header.opcode direction ≡ ok tt
  pub view_is : view ≡ view_of view.header.opcode view.payload

Accepted-Rebuilds :
    (direction : WireDirection) (opcode hi lo : ℕ) (payload : Bytes) (checksum : ℕ)
    (view : FrameView)
    → AllBytes (assemble opcode hi lo payload checksum)
    → Accepted direction opcode hi lo payload checksum view
    → Rebuilds direction (assemble opcode hi lo payload checksum) view
Accepted-Rebuilds direction opcode hi lo payload checksum view ok_f acc =
    let c = (frame_sum_iff opcode hi lo payload checksum ok_f acc.length_is).0 acc.sum_is in
    rw (← acc.view_is) (record {
      built = rebuild opcode hi lo payload checksum ok_f.1.0 ok_f.1.1.0 acc.length_is c;
      legal = acc.legal;
      view_is = rw (acc.length_is, c);
    })

too_short :
    (direction : WireDirection) (frame : Bytes) (view : FrameView)
    → ltb (length frame) 4 ≡ true
    → parse_frame direction frame ≢ ok view
unfolding parse_frame
too_short direction frame view short h = ground arith

Parts-Rebuilds :
    (direction : WireDirection) (frame : Bytes) (view : FrameView) (parts : Parts frame)
    → AllBytes frame
    → parse_frame direction frame ≡ ok view
    → Rebuilds direction frame view
Parts-Rebuilds direction frame view parts ok_f h =
    let o = parts.opcode in
    let hi = parts.hi in
    let lo = parts.lo in
    let p = parts.payload in
    let c = parts.checksum in
    rw parts.assembled (
      Accepted-Rebuilds direction o hi lo p c view (rw parts.assembled at ok_f) (
        judge-ok direction o hi lo p c view
          (sym (parse_frame-judge direction o hi lo p c) ∙ (rw parts.assembled at h))))

-- A list of bytes that `parse_frame` accepts as a view is the frame that the client builds from the
-- view's opcode and payload, that opcode is legal in the direction, and the view holds their sum.
pub parse_frame-Rebuilds :
    (direction : WireDirection) (frame : Bytes) (view : FrameView)
    → AllBytes frame
    → parse_frame direction frame ≡ ok view
    → Rebuilds direction frame view
parse_frame-Rebuilds direction frame view ok_f h = elim (Bool-cases (ltb (length frame) 4)) [
  | inl short ↦ absurd (too_short direction frame view short h)
  | inr long ↦ Parts-Rebuilds direction frame view (Parts-of frame (ground arith)) ok_f h
]
