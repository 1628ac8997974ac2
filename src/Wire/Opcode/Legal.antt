-- ===== src/Wire/Opcode/Legal.antt =====
-- What `validate` answers, against the tables of PROTOCOL.md, "Opcode Classes".
use qup.Prelude.{
  ◌≡◌, refl, Bool, true, false, ◌||◌, ◌&&◌, Result, ok, err, Bytes, ◌∷◌, [], arith, ◌==◌, within,
  if◌then◌else◌, passes_below, passes_below_at,
}
use qup.Word.{IsByte, contains}
use qup.Wire.Error.{
  WireDirection, client_to_node, node_to_client, Opcode, FrameError, reserved_opcode,
  invalid_direction,
}
use qup.Wire.Opcode.{validate}

-- The opcodes that PROTOCOL.md defines for each direction.
abbrev pub opcodes_of : WireDirection → Bytes
opcodes_of client_to_node = b'P' ∷ b'I' ∷ b'C' ∷ b'S' ∷ b'G' ∷ b'W' ∷ b'N' ∷ b'U' ∷ b'?' ∷ []
opcodes_of node_to_client = b'k' ∷ b'i' ∷ b'c' ∷ b's' ∷ b'g' ∷ b'w' ∷ b':' ∷ b'@' ∷ b'!' ∷ []

abbrev pub opposite : WireDirection → WireDirection
opposite client_to_node = node_to_client
opposite node_to_client = client_to_node

-- The answer that the tables ask for: a letter outside them is unknown, other bytes are reserved.
unfoldable pub verdict : Opcode → WireDirection → Result (Unit {0}) FrameError
unfolding contains
verdict o direction =
    if contains (opcodes_of direction) o
    then ok tt
    else if contains (opcodes_of (opposite direction)) o
    then err (invalid_direction o direction)
    else if within b'A' b'Z' o || within b'a' b'z' o
    then err (FrameError.unknown_opcode o)
    else err (reserved_opcode o)

same_direction : WireDirection → WireDirection → Bool
same_direction client_to_node client_to_node = true
same_direction node_to_client node_to_client = true
same_direction _ _ = false

same : Result (Unit {0}) FrameError → Result (Unit {0}) FrameError → Bool
unfolding same_direction
same (ok _) (ok _) = true
same (err (reserved_opcode o)) (err (reserved_opcode p)) = o == p
same (err (FrameError.unknown_opcode o)) (err (FrameError.unknown_opcode p)) = o == p
same (err (invalid_direction o d)) (err (invalid_direction p e)) = o == p && same_direction d e
same _ _ = false

same_sound : (r s : Result (Unit {0}) FrameError) → same r s ≡ true → r ≡ s
unfolding same
same_sound (ok _) (ok _) h = ground arith
same_sound (err (reserved_opcode o)) (err (reserved_opcode p)) h = ground arith
same_sound (err (FrameError.unknown_opcode o)) (err (FrameError.unknown_opcode p)) h = ground arith
same_sound (err (invalid_direction o d)) (err (invalid_direction p e)) h = ground arith
same_sound _ _ h = cc

verdict_table :
    (direction : WireDirection)
    → passes_below 256 (λ o. same (validate o direction) (verdict o direction)) ≡ true
unfolding passes_below validate verdict same
verdict_table client_to_node = refl
verdict_table node_to_client = refl

-- On every byte and in both directions `validate` gives the answer of the protocol's tables:
-- it admits the opcodes listed for the direction, and names the fault of each other byte.
pub validate-verdict :
    (o : Opcode) (direction : WireDirection) → IsByte o → validate o direction ≡ verdict o direction
validate-verdict o direction h = same_sound (validate o direction) (verdict o direction) (
    passes_below_at 256 (λ p. same (validate p direction) (verdict p direction)) o
      (verdict_table direction) h)
