-- ===== src/Embassy/Stream.antt =====
-- What the server of crates/qup-embassy/src/lib.rs reads and writes byte by byte. Its stream has the
-- operations of the client's stream.
use qup.Prelude.{
  ℕ, zero, suc, ◌+◌, ◌-◌, ◌^◌, ◌≤◌, ◌<◌, ◌≡◌, refl, sym, ap, ◌∙◌, inl, inr, Bool-cases, [], ◌∷◌,
  ◌++◌, append_assoc, append-nil, Bytes, Result, ok, err, map_err, length, length-append, ltb,
  ltb→lt, lt→ltb, min, if◌then◌else◌, ◌==◌, arith,
}
use qup.Prelude.Exec.{Exec, continue-ok, pure, raise, ◌>>=◌, ◌>>◌}
use qup.Word.{to_be_bytes}
use qup.Wire.Error.{Opcode}
use qup.Wire.Checksum.{compute_checksum}
use qup.Client.Encode.{build_frame}
use qup.Client.Session.{ByteStream}
use qup.Embassy.Error.{ServerError, write, protocol, frame, response_too_long}
use qup.Embassy.Sum.{FrameSum, add_byte, add_slice, finish_sum}

-- The stream and the running sum of a request.
pub record Request (S : Type 0) : Type 0 where
  pub source : S
  pub sum : FrameSum

-- DISCARD_CHUNK
abbrev pub discard_chunk : ℕ
discard_chunk = 64

module _ {S E : Type 0} (stream : ByteStream S E) where
  abbrev write_all : Bytes → Exec S (ServerError E) (Unit {0})
  write_all bytes s = let (done, s') = stream.write_all bytes s in (map_err write done, s')

  unfoldable pub send_frame : Opcode → Bytes → Exec S (ServerError E) (Unit {0})
  send_frame opcode payload =
      if ltb (length payload) (2 ^ 16)
      then (do
        write_all (opcode ∷ to_be_bytes 2 (length payload))
        write_all payload
        write_all (compute_checksum opcode payload ∷ []))
      else raise response_too_long

  abbrev pub Tracked : Type 0 → Type 0
  Tracked A = Exec (Request S) (ServerError E) A

  abbrev pub track : Request S → Result Bytes E × S → Result Bytes (ServerError E) × Request S
  track request (ok bytes, s) = (ok bytes, record { source = s; sum = add_slice request.sum bytes })
  track request (err e, s) = (err (ServerError.read e), record request { source = s })

  unfoldable pub read_exact_tracked : ℕ → Tracked Bytes
  read_exact_tracked n request = track request (stream.read_exact n request.source)

  -- The `while` loop: each round takes at least one byte.
  discard_rounds : ℕ → ℕ → Tracked (Unit {0})
  discard_rounds zero remaining = pure tt
  discard_rounds (suc fuel) remaining =
      let chunk_len = min remaining discard_chunk in
      let again = discard_rounds fuel (remaining - chunk_len) in
      if remaining == 0 then pure tt else (read_exact_tracked chunk_len >>= λ chunk. again)

  unfoldable pub discard_exact : ℕ → Tracked (Unit {0})
  unfolding discard_rounds
  discard_exact len = discard_rounds len len

  -- The checksum byte is added to the sum like the bytes before it.
  unfoldable pub finish_checksum : Tracked (Unit {0})
  finish_checksum = do
    checksum ← read_exact_tracked 1
    λ request. (map_err (λ e. protocol (frame e)) (finish_sum request.sum), request)

  -- What has been read since: so many bytes, all of them in the sum.
  pub record Consumed (n : ℕ) (before after : Request S) : Type 0 where
    pub bytes : Bytes
    pub counted : length bytes ≡ n
    pub taken : stream.taken after.source ≡ stream.taken before.source ++ bytes
    pub summed : after.sum ≡ add_slice before.sum bytes

  pub add_slice-append :
      (sum : FrameSum) (xs ys : Bytes) → add_slice sum (xs ++ ys) ≡ add_slice (add_slice sum xs) ys
  unfolding add_slice
  add_slice-append sum [] ys = refl
  add_slice-append sum (x ∷ xs) ys = add_slice-append (add_byte sum x) xs ys

  track-Consumed :
      (n : ℕ) (before after : Request S) (bytes : Bytes) (x : Result Bytes E × S)
      → stream.read_exact n before.source ≡ x
      → track before x ≡ (ok bytes, after)
      → Consumed n before after
  track-Consumed n before after bytes (err e, s) was h = cc
  track-Consumed n before after bytes (ok got, s) was h =
      let (counted, all, taken, sent) = stream.fills n before.source s got was in
      let source_is : after.source ≡ s = ap (λ p. p.1.source) (sym h) in
      record {
        bytes = got;
        counted = counted;
        taken = ap stream.taken source_is ∙ taken;
        summed = ap (λ p. p.1.sum) (sym h);
      }

  nothing-Consumed : (before : Request S) → Consumed 0 before before
  unfolding add_slice
  nothing-Consumed before = record {
    bytes = [];
    counted = refl;
    taken = sym (append-nil (stream.taken before.source));
    summed = refl;
  }

  more-Consumed :
      (m n : ℕ) (before middle after : Request S)
      → Consumed m before middle
      → Consumed n middle after
      → Consumed (m + n) before after
  more-Consumed m n before middle after first later = record {
    bytes = first.bytes ++ later.bytes;
    counted = omega (arith, length-append first.bytes later.bytes, first.counted, later.counted);
    taken =
        later.taken
        ∙ ap (λ t. t ++ later.bytes) first.taken
        ∙ append_assoc (stream.taken before.source) first.bytes later.bytes;
    summed =
        later.summed
        ∙ ap (λ t. add_slice t later.bytes) first.summed
        ∙ sym (add_slice-append before.sum first.bytes later.bytes);
  }

  rounds-Consumed :
      (fuel remaining : ℕ) (before after : Request S)
      → remaining ≤ fuel
      → discard_rounds fuel remaining before ≡ (ok tt, after)
      → Consumed remaining before after
  unfolding discard_rounds read_exact_tracked
  rounds-Consumed zero remaining before after le h =
      let none_left : remaining ≡ 0 = omega arith in
      let same : before ≡ after = ap (λ p. p.1) h in
      rw none_left (rw⁻¹ same (nothing-Consumed before))
  rounds-Consumed (suc fuel) remaining before after le h = elim (Bool-cases (remaining == 0)) [
    | inl done ↦
        let none_left : remaining ≡ 0 = ground arith in
        let same : before ≡ after = ap (λ p. p.1) (rw done at h) in
        rw none_left (rw⁻¹ same (nothing-Consumed before))
    | inr left ↦
        let chunk_len = min remaining discard_chunk in
        let (chunk, middle, first, later) =
          continue-ok (read_exact_tracked chunk_len before)
            (λ chunk. discard_rounds fuel (remaining - chunk_len)) (rw left at h) in
        let whole : chunk_len + (remaining - chunk_len) ≡ remaining = omega arith in
        rw whole at (
          more-Consumed chunk_len (remaining - chunk_len) before middle after
            (track-Consumed chunk_len before middle chunk
              (stream.read_exact chunk_len before.source) refl first)
            (rounds-Consumed fuel (remaining - chunk_len) middle after (ground arith) later))
  ]

  -- A `discard_exact` that succeeded took exactly that many bytes from the stream, in whatever
  -- chunks, and added each of them to the running sum.
  pub discard_exact-Consumed :
      (len : ℕ) (before after : Request S)
      → discard_exact len before ≡ (ok tt, after)
      → Consumed len before after
  unfolding discard_exact
  discard_exact-Consumed len before after h = rounds-Consumed len len before after (omega arith) h

  abbrev pub write_end : Result (Unit {0}) E × S → Result (Unit {0}) (ServerError E) × S
  write_end x = (map_err write x.0, x.1)

  pub wrote :
      (bytes : Bytes) (s s' : S) (x : Result (Unit {0}) E × S)
      → stream.write_all bytes s ≡ x
      → write_end x ≡ (ok tt, s')
      → stream.sent s' ≡ stream.sent s ++ bytes
  wrote bytes s s' (err e, t) was h = cc
  wrote bytes s s' (ok tt, t) was h =
      let (taken, sent) = stream.writes bytes s t was in
      let state_is : s' ≡ t = ap (λ p. p.1) (sym h) in ap stream.sent state_is ∙ sent

  abbrev Sends : Opcode → Bytes → S → S → Type 0
  Sends opcode payload s s' =
      (bytes : Bytes) × (build_frame opcode payload ≡ ok bytes)
      × (stream.sent s' ≡ stream.sent s ++ bytes)

  parts :
      (opcode : Opcode) (payload : Bytes) (s s' : S)
      → length payload < 2 ^ 16
      → stream.sent s'
        ≡ ((stream.sent s ++ (opcode ∷ to_be_bytes 2 (length payload))) ++ payload)
          ++ (compute_checksum opcode payload ∷ [])
      → Sends opcode payload s s'
  unfolding build_frame
  parts opcode payload s s' lt sent =
      let header = opcode ∷ to_be_bytes 2 (length payload) in
      let checksum = compute_checksum opcode payload ∷ [] in
      (
        header ++ (payload ++ checksum),
        rw (lt→ltb _ _ lt) refl,
        sent
            ∙ append_assoc (stream.sent s ++ header) payload checksum
            ∙ append_assoc (stream.sent s) header (payload ++ checksum),
      )

  -- A response that was sent went out in three writes, which make up the frame that the client's
  -- builder gives for its opcode and payload.
  pub send_frame-build_frame :
      (opcode : Opcode) (payload : Bytes) (s s' : S)
      → send_frame opcode payload s ≡ (ok tt, s')
      → (bytes : Bytes) × (build_frame opcode payload ≡ ok bytes)
        × (stream.sent s' ≡ stream.sent s ++ bytes)
  unfolding send_frame
  send_frame-build_frame opcode payload s s' h = elim (Bool-cases (ltb (length payload) (2 ^ 16))) [
    | inr long ↦ let bad = rw long at h in cc
    | inl fits ↦
        let header = opcode ∷ to_be_bytes 2 (length payload) in
        let checksum = compute_checksum opcode payload ∷ [] in
        let (u, s1, first, h1) =
          continue-ok (write_all header s) (λ u. write_all payload >> write_all checksum)
            (rw fits at h) in
        let (v, s2, second, h2) = continue-ok (write_all payload s1) (λ u. write_all checksum) h1 in
        parts opcode payload s s' (ltb→lt _ _ fits) (
          wrote checksum s2 s' (stream.write_all checksum s2) refl h2
          ∙ ap (λ t. t ++ checksum)
              (wrote payload s1 s2 (stream.write_all payload s1) refl second
                ∙ ap (λ t. t ++ payload)
                    (wrote header s s1 (stream.write_all header s) refl first)))
  ]
