-- ===== src/Embassy/Key.antt =====
-- `Key` of crates/qup-embassy/src/lib.rs: a value with a permission, a generation and two signals.
use qup.Prelude.{
  false, ◌==◌, ℕ, ◌⊎◌, ◌+◌, ◌%◌, ◌^◌, ◌≡◌, refl, sym, ap, ◌∙◌, inl, inr, Bool, true, not, ◌&&◌,
  ◌||◌, [], ◌∷◌, Bytes, Result, ok, err, Result-cases,
}
use qup.Prelude.Exec.{Exec, pure, lift, ◌>>=◌, ◌>>◌}
use qup.Word.{ℤ, pos, negsuc, u8_of_bool, i64_to_be_bytes}
use qup.Wire.Value.{ValueRef, bool_tag, i64_tag}
use qup.Wire.Value.Encoding.{encode_value}
use qup.Embassy.Perm.{Perm, observable}

pub data WireValueRef : Type 0 where
  bool : Bool → WireValueRef
  i64 : ℤ → WireValueRef
  str : Bytes → WireValueRef
  oversized_str : WireValueRef

pub data WireValueError : Type 0 where
  type_mismatch value_too_large string_contains_nul : WireValueError

-- The trait `QupValue`. `encode` gives the bytes that are written to the front of the buffer, which
-- `run!` makes long enough for the values of its keys.
pub record QupValue (T : Type 0) : Type 0 where
  pub same : T → T → Bool
  pub validate : T → Result (Unit {0}) WireValueError
  pub encode : T → Result Bytes WireValueError
  pub decode : WireValueRef → Result T WireValueError

-- `signal` and `notifier_signal` say that a signal is pending; `attached` that the pointer to the
-- server's signal is not null.
pub record Key (T : Type 0) : Type 0 where
  pub name : Bytes
  pub keyref : ℕ
  pub value : T
  pub change_signal : Bool
  pub attached : Bool
  pub notifier_signal : Bool
  pub generation : ℕ

-- impl QupValue for bool. A `bool` is always valid.
abbrev pub decode_bool_value : WireValueRef → Result Bool WireValueError
decode_bool_value (WireValueRef.bool value) = ok value
decode_bool_value (WireValueRef.i64 value) = err type_mismatch
decode_bool_value (WireValueRef.str value) = err type_mismatch
decode_bool_value oversized_str = err type_mismatch

abbrev pub bool_value : QupValue Bool
bool_value = record {
  same = λ a b. not (not a && b || a && not b);
  validate = λ value. ok tt;
  encode = λ value. ok (bool_tag ∷ u8_of_bool value ∷ []);
  decode = decode_bool_value;
}

-- impl QupValue for i64. An `i64` is always valid.
abbrev pub decode_i64_value : WireValueRef → Result ℤ WireValueError
decode_i64_value (WireValueRef.i64 value) = ok value
decode_i64_value (WireValueRef.bool value) = err type_mismatch
decode_i64_value (WireValueRef.str value) = err type_mismatch
decode_i64_value oversized_str = err type_mismatch

abbrev same_i64 : ℤ → ℤ → Bool
same_i64 (pos a) (pos b) = a == b
same_i64 (negsuc a) (negsuc b) = a == b
same_i64 _ _ = false

abbrev pub i64_value : QupValue ℤ
i64_value = record {
  same = same_i64;
  validate = λ value. ok tt;
  encode = λ value. ok (i64_tag ∷ i64_to_be_bytes value);
  decode = decode_i64_value;
}

-- Both kinds of value have the wire form of the protocol's values.
bool_value-encode :
    (value : Bool) → bool_value.encode value ≡ ok (encode_value (ValueRef.bool value))
bool_value-encode value = refl

i64_value-encode : (value : ℤ) → i64_value.encode value ≡ ok (encode_value (ValueRef.i64 value))
i64_value-encode value = refl

module _ {T : Type 0} (rules : QupValue T) (perm : Perm) where
  abbrev pub Access : Type 0 → Type 0
  Access A = Exec (Key T) WireValueError A

  abbrev store : T → Access (Unit {0})
  store value key = (ok tt, record key { value = value })

  unfoldable pub notify_changed : Access (Unit {0})
  notify_changed key = (
    ok tt,
    record key {
      generation = (key.generation + 1) % 2 ^ 32;
      change_signal = true;
      notifier_signal = key.notifier_signal || (observable perm && key.attached);
    },
  )

  unfoldable pub attach_notifier : Access (Unit {0})
  attach_notifier key = (ok tt, record key { attached = key.attached || observable perm })

  unfoldable pub try_set : T → Access Bool
  try_set value key =
      let changed = not (rules.same key.value value) in
      (do lift (rules.validate value); store value; notify_changed; pure changed) key

  unfoldable pub encode_current_value : Key T → Result Bytes WireValueError
  encode_current_value key = rules.encode key.value

  unfoldable pub write_and_encode : WireValueRef → Access Bytes
  write_and_encode value = do
    decoded ← lift (rules.decode value)
    lift (rules.validate decoded)
    store decoded
    notify_changed
    lift (rules.encode decoded)

  -- An update of a key: the value is valid, it is stored, and the generation moves on.
  pub record Updated (key : Key T) (value : T) (key' : Key T) : Type 0 where
    pub valid : rules.validate value ≡ ok tt
    pub stored : key'.value ≡ value
    pub counted : key'.generation ≡ (key.generation + 1) % 2 ^ 32
    pub signalled : key'.change_signal ≡ true
    pub kept : (key'.name ≡ key.name) × (key'.keyref ≡ key.keyref)

  -- A write that is answered: the value that was sent is decoded and stored, and a read that
  -- follows is answered with the same bytes.
  pub write_and_encode-encode_current_value :
      (value : WireValueRef) (key key' : Key T) (out : Bytes)
      → write_and_encode value key ≡ (ok out, key')
      → (encode_current_value key' ≡ ok out)
        × (decoded : T) × (rules.decode value ≡ ok decoded)
        × Updated key decoded key'
  unfolding write_and_encode encode_current_value notify_changed
  write_and_encode-encode_current_value value key key' out h =
      elim (Result-cases (rules.decode value)) [
        | inr (e, bad) ↦ let no = rw bad at h in cc
        | inl (decoded, good) ↦ elim (Result-cases (rules.validate decoded)) [
          | inr (e, bad) ↦ let no = rw bad at (rw good at h) in cc
          | inl (u, valid) ↦
              let ended = rw valid at (rw good at h) in
              let encoded : rules.encode decoded ≡ ok out = ap (λ p. p.0) ended in
              let stored : key'.value ≡ decoded = ap (λ p. p.1.value) (sym ended) in
              (
                ap (λ v. rules.encode v) stored ∙ encoded,
                decoded,
                good,
                record {
                  valid = valid;
                  stored = stored;
                  counted = ap (λ p. p.1.generation) (sym ended);
                  signalled = ap (λ p. p.1.change_signal) (sym ended);
                  kept = (ap (λ p. p.1.name) (sym ended), ap (λ p. p.1.keyref) (sym ended));
                },
              )
        ]
      ]

  -- A `try_set` that is accepted is an update, and it reports whether the value is another one; one
  -- that is refused leaves the key as it was.
  pub try_set-Updated :
      (value : T) (key : Key T)
      → ((try_set value key).0 ≡ ok (not (rules.same key.value value))
          × Updated key value (try_set value key).1)
        ⊎ ((e : WireValueError) × (rules.validate value ≡ err e)
            × (try_set value key ≡ (err e, key)))
  unfolding try_set notify_changed
  try_set-Updated value key = elim (Result-cases (rules.validate value)) [
    | inr (e, bad) ↦ inr (e, bad, rw bad refl)
    | inl (u, valid) ↦ inl (
        rw valid (
          refl,
          record {
            valid = valid;
            stored = refl;
            counted = refl;
            signalled = refl;
            kept = (refl, refl);
          },
        ))
  ]
