-- ===== src/Wire/Reader/Whole.antt =====
-- The three reads of a frame, put together.
use qup.Prelude.{ℕ, ◌+◌, ◌*◌, ◌≡◌, refl, ap, ◌∙◌, [], ◌∷◌, ◌++◌, Bytes, length, arith}
use qup.Word.{from_be_bytes}
use qup.Wire.Frame.Layout.{IsWholeFrame}
use qup.Wire.Reader.{byte_at}

module _ (hi lo : ℕ) where
  pub word_is : from_be_bytes (hi ∷ lo ∷ []) ≡ hi * 256 + lo
  unfolding from_be_bytes
  word_is = omega arith

pub array_three :
    (bytes : Bytes)
    → length bytes ≡ 3
    → bytes ≡ byte_at bytes 0 ∷ byte_at bytes 1 ∷ byte_at bytes 2 ∷ []
array_three (a ∷ b ∷ c ∷ []) h = refl
array_three [] h = absurd (omega arith)
array_three (a ∷ []) h = absurd (omega arith)
array_three (a ∷ b ∷ []) h = absurd (omega arith)
array_three (a ∷ b ∷ c ∷ d ∷ bytes) h = absurd (omega arith)

pub array_one : (bytes : Bytes) → length bytes ≡ 1 → bytes ≡ byte_at bytes 0 ∷ []
array_one (a ∷ []) h = refl
array_one [] h = absurd (omega arith)
array_one (a ∷ b ∷ bytes) h = absurd (omega arith)

-- Three bytes, the payload that they announce, and one byte are a whole frame.
pub reads-IsWholeFrame :
    (header payload last : Bytes)
    → length header ≡ 3
    → length payload ≡ from_be_bytes (byte_at header 1 ∷ byte_at header 2 ∷ [])
    → length last ≡ 1
    → IsWholeFrame (header ++ (payload ++ last))
reads-IsWholeFrame header payload last three announced one = record {
  opcode = byte_at header 0;
  hi = byte_at header 1;
  lo = byte_at header 2;
  payload = payload;
  checksum = byte_at last 0;
  layout =
      ap (λ t. t ++ (payload ++ last)) (array_three header three)
      ∙ ap (λ t. byte_at header 0 ∷ byte_at header 1 ∷ byte_at header 2 ∷ (payload ++ t))
          (array_one last one);
  announced = announced ∙ word_is (byte_at header 1) (byte_at header 2);
}
