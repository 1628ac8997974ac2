-- ===== src/Embassy/Incoming/Tracking.antt =====
-- What the tracked reads of a request take from the stream.
use qup.Prelude.{
  ℕ, zero, suc, ◌-◌, ◌≤◌, ◌≡◌, ◌≢◌, refl, sym, ap, ◌∙◌, inl, inr, Bool-cases, [], ◌∷◌, ◌++◌,
  append_assoc, append-nil, Bytes, Result, ok, err, map_err, length, length-append, min, ◌==◌,
  arith,
}
use qup.Prelude.Exec.{continue-ok, raise, ◌>>◌}
use qup.Word.{AllBytes}
use qup.Word.BigEndian.{AllBytes-append}
use qup.Wire.Error.{FrameError, PayloadError}
use qup.Wire.Reader.{byte_at}
use qup.Client.Session.{ByteStream}
use qup.Embassy.Error.{ServerError, protocol, frame, payload}
use qup.Embassy.Sum.{FrameSum, add_slice, finish_sum}
use qup.Embassy.Stream.{
  Request, track, read_exact_tracked, discard_exact, finish_checksum, discard_chunk,
  add_slice-append,
}
use qup.Embassy.Validator.{Checking, check_chunk}
use qup.Embassy.Validator.Chunks.{Progress, check_chunk-Progress}
use qup.Embassy.Incoming.{IncomingRequest, refuse_payload, check_rounds}

pub one_byte : (xs : Bytes) → length xs ≡ 1 → xs ≡ byte_at xs 0 ∷ []
one_byte [] h = absurd (omega (arith, h))
one_byte (x ∷ []) h = refl
one_byte (x ∷ y ∷ xs) h = absurd (omega (arith, h))

module _ {S E : Type 0} (stream : ByteStream S E) where
  -- The bytes that were taken between two states, all of them in the sum.
  pub record Got (bytes : Bytes) (before after : Request S) : Type 0 where
    pub all : AllBytes bytes
    pub taken : stream.taken after.source ≡ stream.taken before.source ++ bytes
    pub sent : stream.sent after.source ≡ stream.sent before.source
    pub summed : after.sum ≡ add_slice before.sum bytes

  pub nothing-Got : (before : Request S) → Got [] before before
  unfolding add_slice
  nothing-Got before = record {
    all = tt;
    taken = sym (append-nil (stream.taken before.source));
    sent = refl;
    summed = refl;
  }

  pub more-Got :
      (xs ys : Bytes) (before middle after : Request S)
      → Got xs before middle
      → Got ys middle after
      → Got (xs ++ ys) before after
  more-Got xs ys before middle after first later = record {
    all = AllBytes-append xs ys first.all later.all;
    taken =
        later.taken
        ∙ ap (λ t. t ++ ys) first.taken
        ∙ append_assoc (stream.taken before.source) xs ys;
    sent = later.sent ∙ first.sent;
    summed =
        later.summed
        ∙ ap (λ t. add_slice t ys) first.summed
        ∙ sym (add_slice-append stream before.sum xs ys);
  }

  track-Got :
      (n : ℕ) (before after : Request S) (bytes : Bytes) (x : Result Bytes E × S)
      → stream.read_exact n before.source ≡ x
      → track stream before x ≡ (ok bytes, after)
      → (length bytes ≡ n) × Got bytes before after
  track-Got n before after bytes (err e, s) was h = cc
  track-Got n before after bytes (ok got, s) was h =
      let (counted, all, taken, sent) = stream.fills n before.source s got was in
      let source_is : after.source ≡ s = ap (λ p. p.1.source) (sym h) in
      let bytes_is : got ≡ bytes = ground arith in
      let here : Got got before after = record {
        all = all;
        taken = ap stream.taken source_is ∙ taken;
        sent = ap stream.sent source_is ∙ sent;
        summed = ap (λ p. p.1.sum) (sym h);
      } in
      (rw bytes_is at counted, rw bytes_is at here)

  pub read_exact_tracked-Got :
      (n : ℕ) (before after : Request S) (bytes : Bytes)
      → read_exact_tracked stream n before ≡ (ok bytes, after)
      → (length bytes ≡ n) × Got bytes before after
  unfolding read_exact_tracked
  read_exact_tracked-Got n before after bytes h =
      track-Got n before after bytes (stream.read_exact n before.source) refl h

  -- The rest of a payload and the checksum byte were taken, and the sum came out as zero.
  pub record Finished (body : Bytes) (before after : Request S) : Type 0 where
    pub checksum : ℕ
    pub got : Got (body ++ checksum ∷ []) before after
    pub zero_sum : after.sum ≡ 0

  pub more-Finished :
      (xs body : Bytes) (before middle after : Request S)
      → Got xs before middle
      → Finished body middle after
      → Finished (xs ++ body) before after
  more-Finished xs body before middle after first later = record {
    checksum = later.checksum;
    got =
        rw (append_assoc xs body (later.checksum ∷ []))
          (more-Got xs (body ++ later.checksum ∷ []) before middle after first later.got);
    zero_sum = later.zero_sum;
  }

  abbrev refused : FrameError → ServerError E
  refused e = protocol (frame e)

  sum_zero : (sum : FrameSum) → map_err refused (finish_sum sum) ≡ ok tt → sum ≡ 0
  unfolding finish_sum
  sum_zero sum h = ground arith

  pub finish_checksum-Finished :
      (before after : Request S)
      → finish_checksum stream before ≡ (ok tt, after)
      → Finished [] before after
  unfolding finish_checksum
  finish_checksum-Finished before after h =
      let (checksum, middle, read, ended) =
        continue-ok (read_exact_tracked stream 1 before)
          (λ checksum request.
            (map_err (λ e. protocol (frame e)) (finish_sum request.sum), request))
          h in
      let (counted, got) = read_exact_tracked-Got 1 before middle checksum read in
      let same : middle ≡ after = ap (λ p. p.1) ended in
      record {
        checksum = byte_at checksum 0;
        got = rw same at (rw (one_byte checksum counted) at got);
        zero_sum = ap (λ r. r.sum) (sym same) ∙ sum_zero middle.sum (ap (λ p. p.0) ended);
      }

  pub refuse_payload-never :
      (remaining : ℕ) (error : PayloadError) (before after : Request S) (request : IncomingRequest)
      → refuse_payload stream remaining error before ≢ (ok request, after)
  unfolding refuse_payload
  refuse_payload-never remaining error before after request h =
      let (u, middle, discarded, rest) =
        continue-ok (discard_exact stream remaining before)
          (λ u. finish_checksum stream >> raise (protocol (payload error))) h in
      let (v, last, finished, ended) =
        continue-ok (finish_checksum stream middle) (λ v. raise (protocol (payload error))) rest in
      cc

  -- The loop over an oversized string takes all of it, and checks it.
  pub check_rounds-Got :
      (fuel remaining : ℕ) (bytes : Bytes) (checking out : Checking) (before after : Request S)
      → remaining ≤ fuel
      → Progress bytes checking
      → check_rounds stream fuel remaining checking before ≡ (ok out, after)
      → (more : Bytes) × (length more ≡ remaining)
        × Got more before after
        × Progress (bytes ++ more) out
  unfolding check_rounds
  check_rounds-Got zero remaining bytes checking out before after le progress h =
      let same : before ≡ after = ap (λ p. p.1) h in
      let out_is : checking ≡ out = ground arith in
      let whole : Progress (bytes ++ []) checking = rw (append-nil bytes) progress in
      ([], omega arith, rw⁻¹ same (nothing-Got before), rw out_is at whole)
  check_rounds-Got (suc fuel) remaining bytes checking out before after le progress h =
      elim (Bool-cases (remaining == 0)) [
        | inl done ↦
            let ended = rw done at h in
            let same : before ≡ after = ap (λ p. p.1) ended in
            let out_is : checking ≡ out = ground arith in
            let whole : Progress (bytes ++ []) checking = rw (append-nil bytes) progress in
            ([], ground arith, rw⁻¹ same (nothing-Got before), rw out_is at whole)
        | inr left ↦
            let chunk_len = min remaining discard_chunk in
            let (chunk, middle, first, later) =
              continue-ok (read_exact_tracked stream chunk_len before)
                (λ chunk.
                  check_rounds stream fuel (remaining - chunk_len) (check_chunk chunk checking))
                (rw left at h) in
            let (counted, got) = read_exact_tracked-Got chunk_len before middle chunk first in
            let (more, many, got', progress') =
              check_rounds-Got fuel (remaining - chunk_len) (bytes ++ chunk)
                (check_chunk chunk checking) out middle after (ground arith)
                (check_chunk-Progress bytes chunk checking progress) later in
            (
              chunk ++ more,
              omega (arith, length-append chunk more, counted, many),
              more-Got chunk more before middle after got got',
              rw (append_assoc bytes chunk more) at progress',
            )
      ]
