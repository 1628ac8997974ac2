-- ===== src/Client/Names.antt =====
-- The methods of `Client` that work with key names (crates/qup/src/client.rs).
use qup.Prelude.{
  ℕ, zero, suc, ◌+◌, [], ◌∷◌, List, Bytes, Result, ok, err, map_err, same_bytes, if◌then◌else◌,
}
use qup.Prelude.Exec.{pure, lift, ◌>>=◌}
use qup.Client.Encode.{Value}
use qup.Client.Message.{KeyInfo, ClientError, key_not_found, ambiguous_key}
use qup.Client.Session.{
  ByteStream, FrameDirection, Waiting, failed, key_count, key, get, write, observe, unobserve,
}

-- `.into_iter().filter(|key| key.name == name)`
unfoldable pub named : Bytes → List KeyInfo → List KeyInfo
named name [] = []
named name (key ∷ keys) =
    let rest = named name keys in if same_bytes key.name name then key ∷ rest else rest

-- The two calls of `matches.next()`.
unfoldable pub only_match : {E : Type 0} → Bytes → List KeyInfo → Result ℕ (ClientError E)
only_match name [] = err (key_not_found name)
only_match name (first ∷ []) = ok first.keyref
only_match name (first ∷ second ∷ rest) = err (ambiguous_key name)

module _ {S E T : Type 0} (io_stream : ByteStream S E) (on_frame : FrameDirection → Bytes → T → T)
    (fuel : ℕ) where
  -- The rounds of the `for` from `keyref` on.
  unfoldable pub keys_from : ℕ → ℕ → Waiting io_stream on_frame (List KeyInfo)
  keys_from zero keyref = pure []
  keys_from (suc left) keyref = do
    info ← key io_stream on_frame fuel keyref
    rest ← keys_from left (keyref + 1)
    pure (info ∷ rest)

  unfoldable pub list_keys : Waiting io_stream on_frame (List KeyInfo)
  list_keys = do count ← key_count io_stream on_frame fuel; keys_from count 0

  unfoldable pub resolve_keyref_by_name : Bytes → Waiting io_stream on_frame ℕ
  resolve_keyref_by_name name = do
    keys ← list_keys
    lift (map_err failed (only_match name (named name keys)))

  unfoldable pub key_by_name : Bytes → Waiting io_stream on_frame KeyInfo
  key_by_name name = do keyref ← resolve_keyref_by_name name; key io_stream on_frame fuel keyref

  unfoldable pub get_by_name : Bytes → Waiting io_stream on_frame Value
  get_by_name name = do keyref ← resolve_keyref_by_name name; get io_stream on_frame fuel keyref

  unfoldable pub write_by_name : Bytes → Value → Waiting io_stream on_frame Value
  write_by_name name value = do
    keyref ← resolve_keyref_by_name name
    write io_stream on_frame fuel keyref value

  unfoldable pub observe_by_name : Bytes → Waiting io_stream on_frame (Unit {0})
  observe_by_name name = do
    keyref ← resolve_keyref_by_name name
    observe io_stream on_frame fuel keyref

  unfoldable pub unobserve_by_name : Bytes → Waiting io_stream on_frame (Unit {0})
  unobserve_by_name name = do
    keyref ← resolve_keyref_by_name name
    unobserve io_stream on_frame fuel keyref
