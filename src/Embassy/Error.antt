-- ===== src/Embassy/Error.antt =====
-- The errors of the server of crates/qup-embassy/src/lib.rs.
use qup.Wire.Error.{FrameError, PayloadError}

pub data ProtocolError : Type 0 where
  frame : FrameError → ProtocolError
  payload : PayloadError → ProtocolError

-- Internal("node ID exceeds …") and Internal("node ID contains NUL byte")
pub data WireStringError : Type 0 where
  node_id_too_long node_id_has_nul : WireStringError

pub data ServerError (E : Type 0) : Type 0 where
  read write : E → ServerError E
  protocol : ProtocolError → ServerError E
  -- Internal("response payload exceeded u16 wire length")
  response_too_long : ServerError E
  -- Internal("response string exceeded u16 wire length") and the other three
  string_too_long key_name_too_long value_not_encoded : ServerError E
  bad_node_id : WireStringError → ServerError E
  -- the panic of `compute_segmented_checksum`
  panicked : ServerError E
