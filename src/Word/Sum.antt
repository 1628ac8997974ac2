-- ===== src/Word/Sum.antt =====
-- The wrapping sum of bytes is the sum modulo 256.
use qup.Prelude.{ℕ, ◌+◌, ◌%◌, ◌≡◌, ◌<◌, [], ◌∷◌, ◌++◌, Bytes, arith}
use qup.Word.{fold_wrapping}

-- The sum of the bytes in ℕ.
abbrev pub total : Bytes → ℕ
total [] = 0
total (b ∷ bs) = b + total bs

pub total-append : (xs ys : Bytes) → total (xs ++ ys) ≡ total xs + total ys
total-append [] ys = omega arith
total-append (x ∷ xs) ys = omega (arith, total-append xs ys)

pub fold_wrapping-total :
    (acc : ℕ) (bs : Bytes) → acc < 256 → fold_wrapping acc bs ≡ (acc + total bs) % 256
unfolding fold_wrapping
fold_wrapping-total acc [] h = omega arith
fold_wrapping-total acc (b ∷ bs) h =
    omega (arith, fold_wrapping-total ((acc + b) % 256) bs (omega arith))
