-- ===== src/Wire/Message/Types.antt =====
-- The message types of crates/qup-core/src/types/message.rs. Borrowed strings are their bytes.
use qup.Prelude.{ℕ, Bytes}
use qup.Wire.Scalar.{KeyFlags}
use qup.Wire.Value.{ValueRef}
use qup.Wire.Caps.{CapsRef}

pub data RequestRef : Type 0 where
  ping identify get_keytab_len : RequestRef
  get_key get : (keyref : ℕ) → RequestRef
  write : (keyref : ℕ) → ValueRef → RequestRef
  observe unobserve : (keyref : ℕ) → RequestRef

pub data OrdinaryResponseRef : Type 0 where
  ok : OrdinaryResponseRef
  identified : (nodeid : Bytes) → OrdinaryResponseRef
  keytab_len : (count : ℕ) → OrdinaryResponseRef
  key : KeyFlags → (name : Bytes) → OrdinaryResponseRef
  value written : ValueRef → OrdinaryResponseRef

pub record ErrorResponse : Type 0 where
  pub code : ℕ

pub data MessageRef : Type 0 where
  request : RequestRef → MessageRef
  ordinary_response : OrdinaryResponseRef → MessageRef
  compatibility_request : MessageRef
  compatibility_response : CapsRef → MessageRef
  error : ErrorResponse → MessageRef
  changed : (keyref : ℕ) → MessageRef
