-- ===== src/Embassy/Incoming/Kinds.antt =====
-- A value, by the byte of its kind.
use qup.Prelude.{
  ℕ, ◌-◌, ◌≡◌, sym, ap, ◌∙◌, inl, inr, Bool-cases, ◌∷◌, ◌++◌, Result, ok, err, length,
  length-append, ◌==◌, ltb, leb, arith,
}
use qup.Prelude.Exec.{continue-ok}
use qup.Word.{from_be_bytes, to_be_bytes}
use qup.Word.BigEndian.{to_be_bytes-from_be_bytes, from_be_bytes-lt}
use qup.Wire.Error.{PayloadError}
use qup.Wire.Value.{ValueRef, ValueKind, kind_from_byte, bool_tag, i64_tag, str_tag}
use qup.Client.Session.{ByteStream}
use qup.Embassy.Stream.{Request, read_exact_tracked}
use qup.Embassy.Incoming.{IncomingRequest, read_string, read_str_value, read_kind}
use qup.Embassy.Incoming.Tracking.{read_exact_tracked-Got, more-Finished, refuse_payload-never}
use qup.Embassy.Incoming.Values.{
  Value, Text, read_bool_value-Value, read_i64_value-Value, read_short-Text, read_oversized-Text,
}

module _ {S E : Type 0} (stream : ByteStream S E) (max_str : ℕ) where
  module _ (keyref : ℕ) where
    read_string-Text :
        (left string_len : ℕ) (incoming : IncomingRequest) (before after : Request S)
        → read_string stream max_str keyref left string_len before ≡ (ok incoming, after)
        → (left ≡ string_len) × Text stream max_str keyref string_len incoming before after
    unfolding read_string
    read_string-Text left string_len incoming before after h =
        elim (Bool-cases (left == string_len)) [
          | inr other ↦
              absurd (refuse_payload-never stream left _ before after incoming (rw other at h))
          | inl whole ↦ (
            ground arith,
            elim (Bool-cases (leb string_len max_str)) [
              | inl fits ↦
                  read_short-Text stream max_str keyref string_len incoming before after
                    (ground arith) (rw fits at (rw whole at h))
              | inr long ↦
                  read_oversized-Text stream max_str keyref string_len incoming before after
                    (ground arith) (rw long at (rw whole at h))
            ],
          )
        ]

    read_str_value-Value :
        (remaining : ℕ) (incoming : IncomingRequest) (before after : Request S)
        → read_str_value stream max_str keyref remaining before ≡ (ok incoming, after)
        → Value stream max_str keyref str_tag remaining incoming before after
    unfolding read_str_value
    read_str_value-Value remaining incoming before after h = elim (Bool-cases (ltb remaining 2)) [
      | inl short ↦
          absurd (refuse_payload-never stream remaining _ before after incoming (rw short at h))
      | inr enough ↦
          let (len_bytes, r1, read, h1) =
            continue-ok (read_exact_tracked stream 2 before)
              (λ len_bytes.
                read_string stream max_str keyref (remaining - 2) (from_be_bytes len_bytes))
              (rw enough at h) in
          let (counted, got) = read_exact_tracked-Got stream 2 before r1 len_bytes read in
          let (left_is, text) =
            read_string-Text (remaining - 2) (from_be_bytes len_bytes) incoming r1 after h1 in
          let len_is : to_be_bytes 2 (length text.bytes) ≡ len_bytes =
            ap (to_be_bytes 2) text.counted
            ∙ ap (λ n. to_be_bytes n (from_be_bytes len_bytes)) (sym counted)
            ∙ to_be_bytes-from_be_bytes len_bytes got.all in
          let small = rw counted at (from_be_bytes-lt len_bytes got.all) in
          record {
            bytes = len_bytes ++ text.bytes;
            finished = more-Finished stream len_bytes text.bytes before r1 after got text.finished;
            counted = ground (arith, length-append len_bytes text.bytes, text.counted);
            sent_value = text.sent_value;
            request_is = text.request_is;
            value = ValueRef.str text.bytes;
            meant = text.meant;
            carried = record {
              fits = omega (arith, small, text.counted);
              no_nul = text.no_nul;
              utf8 = text.utf8;
            };
            encoded = ap (λ t. str_tag ∷ (t ++ text.bytes)) (sym len_is);
          }
    ]

    pub read_kind-Value :
        (byte remaining : ℕ) (kind : Result ValueKind PayloadError) (incoming : IncomingRequest)
        (before after : Request S)
        → kind_from_byte byte ≡ kind
        → read_kind stream max_str keyref remaining kind before ≡ (ok incoming, after)
        → Value stream max_str keyref byte remaining incoming before after
    unfolding read_kind kind_from_byte
    read_kind-Value byte remaining (ok ValueKind.bool) incoming before after is h =
        let tag_is : bool_tag ≡ byte = ground arith in
        rw tag_is at (read_bool_value-Value stream max_str keyref remaining incoming before after h)
    read_kind-Value byte remaining (ok ValueKind.i64) incoming before after is h =
        let tag_is : i64_tag ≡ byte = ground arith in
        rw tag_is at (read_i64_value-Value stream max_str keyref remaining incoming before after h)
    read_kind-Value byte remaining (ok ValueKind.str) incoming before after is h =
        let tag_is : str_tag ≡ byte = ground arith in
        rw tag_is at (read_str_value-Value remaining incoming before after h)
    read_kind-Value byte remaining (err error) incoming before after is h =
        absurd (refuse_payload-never stream remaining error before after incoming h)
