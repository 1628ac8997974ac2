-- ===== src/Embassy/Serving/Answers.antt =====
-- The frame that answers a request.
use qup.Prelude.{
  ℕ, ◌+◌, ◌^◌, ◌≡◌, ◌⊎◌, refl, sym, ap, ◌∙◌, inl, inr, Bool, true, Bool-cases, Option, none, some,
  List, [], ◌∷◌, ◌++◌, append_assoc, append-nil, Bytes, Result, ok, err, length, length-append, ltb,
  leb, set, arith, Result-cases,
}
use qup.Prelude.Exec.{Exec, continue-ok}
use qup.Word.{to_be_bytes}
use qup.Word.BigEndian.{length-to_be_bytes}
use qup.Wire.Codes
use qup.Wire.Error.{Opcode}
use qup.Wire.Checksum.{compute_checksum}
use qup.Client.Encode.{build_frame}
use qup.Client.Session.{ByteStream}
use qup.Embassy.Error.{ServerError}
use qup.Embassy.Key.{WireValueRef, WireValueError}
use qup.Embassy.Keys.{key_count}
use qup.Embassy.Sum.{join, compute_segmented_checksum, compute_segmented_checksum-join}
use qup.Embassy.Stream.{send_frame, send_frame-build_frame, wrote}
use qup.Embassy.Serving.{
  ErasedKey, Serving, Serves, write_part, write_parts, send_segments, send_str16_response,
  send_key_response, send_error, on_stream, slot_from, keyrefs, with_slot, answer_value, answer_get,
  answer_written, answer_write, answer_observe, answer_unobserve,
}
use qup.Embassy.Serving.Notices.{put-ok}

module _ {S E K : Type 0} (io_stream : ByteStream S E) (erased : ErasedKey K)
    (has_observable_keys : Bool) where
  -- One frame was sent: a response with the opcode, or an ERROR.
  pub record Answers (code : Opcode) (before after : S) : Type 0 where
    pub opcode : Opcode
    pub payload : Bytes
    pub frame : Bytes
    pub allowed : (opcode ≡ code) ⊎ (opcode ≡ Codes.error)
    pub built : build_frame opcode payload ≡ ok frame
    pub sent : io_stream.sent after ≡ io_stream.sent before ++ frame

  pub send_frame-Answers :
      (code opcode : Opcode) (payload : Bytes) (s s' : S)
      → (opcode ≡ code) ⊎ (opcode ≡ Codes.error)
      → send_frame io_stream opcode payload s ≡ (ok tt, s')
      → Answers code s s'
  send_frame-Answers code opcode payload s s' allowed h =
      let (frame, built, sent) = send_frame-build_frame io_stream opcode payload s s' h in
      record {
        opcode = opcode;
        payload = payload;
        frame = frame;
        allowed = allowed;
        built = built;
        sent = sent;
      }

  write_parts-join :
      (parts : List Bytes) (s s' : S)
      → write_parts io_stream erased has_observable_keys parts s ≡ (ok tt, s')
      → io_stream.sent s' ≡ io_stream.sent s ++ join parts
  unfolding write_parts
  write_parts-join [] s s' h =
      ap io_stream.sent (ap (λ p. p.1) (sym h)) ∙ sym (append-nil (io_stream.sent s))
  write_parts-join (part ∷ parts) s s' h =
      let (u, t, first, rest) =
        continue-ok (write_part io_stream erased has_observable_keys part s)
          (λ u. write_parts io_stream erased has_observable_keys parts) h in
      write_parts-join parts t s' rest
      ∙ ap (λ x. x ++ join parts) (wrote io_stream part s t (io_stream.write_all part s) refl first)
      ∙ append_assoc (io_stream.sent s) part (join parts)

  join-last :
      (segments : List Bytes) (last : Bytes)
      → join (segments ++ (last ∷ [])) ≡ join segments ++ last
  join-last [] last = append-nil last
  join-last (x ∷ segments) last =
      ap (λ t. x ++ t) (join-last segments last) ∙ sym (append_assoc x (join segments) last)

  -- The writes of a response in segments make up its frame, and the checksum does not panic.
  send_segments-Answers :
      (code opcode : Opcode) (len : ℕ) (segments : List Bytes) (s s' : S)
      → (opcode ≡ code) ⊎ (opcode ≡ Codes.error)
      → length (join segments) ≡ len
      → ltb len (2 ^ 16) ≡ true
      → send_segments io_stream erased has_observable_keys opcode len segments s ≡ (ok tt, s')
      → Answers code s s'
  unfolding send_segments build_frame
  send_segments-Answers code opcode len segments s s' allowed len_is fits h =
      let payload = join segments in
      let checksum = compute_checksum opcode payload in
      let summed : compute_segmented_checksum opcode segments ≡ some checksum =
        compute_segmented_checksum-join opcode segments ∙ rw (len_is, fits) refl in
      let sent =
        write_parts-join ((opcode ∷ to_be_bytes 2 len) ∷ (segments ++ ((checksum ∷ []) ∷ []))) s s'
          (rw (summed, send_segments) at h) in
      record {
        opcode = opcode;
        payload = payload;
        frame = (opcode ∷ to_be_bytes 2 len) ++ (payload ++ checksum ∷ []);
        allowed = allowed;
        built = rw (len_is, fits) refl;
        sent =
            sent
            ∙ ap (λ t. io_stream.sent s ++ ((opcode ∷ to_be_bytes 2 len) ++ t))
                (join-last segments (checksum ∷ []));
      }

  abbrev pub Done : Serving S K → Result (Unit {0}) (ServerError E) × Serving S K → Type 0
  Done after x = x ≡ (ok tt, after)

  module _ (code : Opcode) (serving after : Serving S K) where
    abbrev pub Answered : Type 0
    Answered = Answers code serving.stream after.stream

    pub stream_answer :
        (m : Exec S (ServerError E) (Unit {0}))
        → ((s : S) → m serving.stream ≡ (ok tt, s) → Answers code serving.stream s)
        → Done after (on_stream io_stream erased has_observable_keys m serving)
        → Answered
    stream_answer m answers h =
        answers after.stream (put-ok io_stream erased serving after (m serving.stream) h).0

    pub frame_answer :
        (payload : Bytes)
        → Done after (
            on_stream io_stream erased has_observable_keys
              (send_frame io_stream code payload)
              serving)
        → Answered
    frame_answer payload h =
        stream_answer (send_frame io_stream code payload)
          (λ s sent. send_frame-Answers code code payload serving.stream s (inl refl) sent) h

    pub error_answer :
        (reason : ℕ)
        → Done after (
            on_stream io_stream erased has_observable_keys
              (send_error io_stream erased has_observable_keys reason)
              serving)
        → Answered
    unfolding send_error
    error_answer reason h =
        stream_answer (send_error io_stream erased has_observable_keys reason)
          (λ s sent.
            send_frame-Answers code Codes.error (reason ∷ []) serving.stream s (inr refl) sent)
          h

    pub slot_answer :
        (keyref : ℕ) (found : ℕ → K → Serves io_stream erased has_observable_keys (Unit {0}))
        (missing : Serves io_stream erased has_observable_keys (Unit {0}))
        → ((index : ℕ) (key : K) → Done after (found index key serving) → Answered)
        → (Done after (missing serving) → Answered)
        → Done after (with_slot io_stream erased has_observable_keys keyref found missing serving)
        → Answered
    slot_answer keyref found missing on_found on_missing h =
        elim (Bool-cases
          (leb (key_count (keyrefs io_stream erased has_observable_keys serving.keys)) keyref)) [
            | inl unknown ↦ error_answer _ (rw unknown at h)
            | inr known ↦
                go (slot_from io_stream erased has_observable_keys 0 keyref serving.keys) refl
                  (rw known at h)
          ]
      where
        go :
            (x : Option (ℕ × K))
            → slot_from io_stream erased has_observable_keys 0 keyref serving.keys ≡ x
            → Done after
                (elim (slot_from io_stream erased has_observable_keys 0 keyref serving.keys) [
                  | none ↦ missing serving
                  | some (index, key) ↦ found index key serving
                ])
            → Answered
        go none is h = on_missing (rw is at h)
        go (some (index, key)) is h = on_found index key (rw is at h)

  pub send_str16_response-Answers :
      (code : Opcode) (value : Bytes) (s s' : S)
      → send_str16_response io_stream erased has_observable_keys code value s ≡ (ok tt, s')
      → Answers code s s'
  unfolding send_str16_response
  send_str16_response-Answers code value s s' h =
      elim (Bool-cases (ltb (length value + 2) (2 ^ 16))) [
        | inr long ↦ let no = rw long at h in cc
        | inl fits ↦
            send_segments-Answers code code (length value + 2)
              (to_be_bytes 2 (length value) ∷ value ∷ []) s s' (inl refl) (counted value) fits
              (rw fits at h)
      ]
    where
      counted :
          (value : Bytes)
          → length (join (to_be_bytes 2 (length value) ∷ value ∷ [])) ≡ length value + 2
      counted value = omega (
        arith,
        length-append (to_be_bytes 2 (length value)) (value ++ []),
        length-append {A = ℕ} value [],
        length-to_be_bytes 2 (length value),
      )

  pub send_key_response-Answers :
      (key : K) (s s' : S)
      → send_key_response io_stream erased has_observable_keys key s ≡ (ok tt, s')
      → Answers Codes.key s s'
  unfolding send_key_response
  send_key_response-Answers key s s' h =
      elim (Bool-cases (ltb (length (erased.name key) + 3) (2 ^ 16))) [
        | inr long ↦ let no = rw long at h in cc
        | inl fits ↦
            send_segments-Answers Codes.key Codes.key (length (erased.name key) + 3)
              ((erased.keyflags key ∷ [])
                ∷ to_be_bytes 2 (length (erased.name key))
                ∷ erased.name key
                ∷ [])
              s s' (inl refl) (counted (erased.keyflags key) (erased.name key)) fits (rw fits at h)
      ]
    where
      counted :
          (flags : ℕ) (name : Bytes)
          → length (join ((flags ∷ []) ∷ to_be_bytes 2 (length name) ∷ name ∷ [])) ≡ length name + 3
      counted flags name = omega (
        arith,
        length-append (to_be_bytes 2 (length name)) (name ++ []),
        length-append {A = ℕ} name [],
        length-to_be_bytes 2 (length name),
      )

  module _ (index : ℕ) (key : K) (serving after : Serving S K) where
    pub get_answer :
        Done after (answer_get io_stream erased has_observable_keys index key serving)
        → Answers Codes.value serving.stream after.stream
    unfolding answer_get
    get_answer h = elim (Bool-cases (erased.readable key)) [
      | inr refused ↦ error_answer Codes.value serving after _ (rw refused at h)
      | inl readable ↦ elim (Result-cases (erased.encode_current_value key)) [
        | inr (e, bad) ↦ let no = rw (bad, answer_value) at (rw readable at h) in cc
        | inl (bytes, good) ↦
            frame_answer Codes.value serving after bytes (rw good at (rw readable at h))
      ]
    ]

    written_answer :
        (now : Serving S K) (written : Result Bytes WireValueError)
        → now.stream ≡ serving.stream
        → Done after (answer_written io_stream erased has_observable_keys written now)
        → Answers Codes.written serving.stream after.stream
    written_answer now (ok bytes) same h = rw same at (frame_answer Codes.written now after bytes h)
    written_answer now (err e) same h = rw same at (error_answer Codes.written now after _ h)

    pub write_answer :
        (value : WireValueRef)
        → Done after (answer_write io_stream erased has_observable_keys value index key serving)
        → Answers Codes.written serving.stream after.stream
    unfolding answer_write
    write_answer value h = elim (Bool-cases (erased.writable key)) [
      | inr refused ↦ error_answer Codes.written serving after _ (rw refused at h)
      | inl writable ↦
          written_answer
            (record serving { keys = set serving.keys index (erased.write_and_encode value key).1 })
            (erased.write_and_encode value key).0 refl (rw writable at h)
    ]

    pub observe_answer :
        Done after (answer_observe io_stream erased has_observable_keys index key serving)
        → Answers Codes.ok serving.stream after.stream
    unfolding answer_observe
    observe_answer h = elim (Bool-cases (erased.observable key)) [
      | inr refused ↦ error_answer Codes.ok serving after _ (rw refused at h)
      | inl observable ↦ frame_answer Codes.ok _ after [] (rw observable at h)
    ]

    pub unobserve_answer :
        Done after (answer_unobserve io_stream erased has_observable_keys index key serving)
        → Answers Codes.ok serving.stream after.stream
    unfolding answer_unobserve
    unobserve_answer h = frame_answer Codes.ok _ after [] h
