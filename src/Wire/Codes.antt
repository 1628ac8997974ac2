-- ===== src/Wire/Codes.antt =====
-- The opcode constants of `impl Opcode` in crates/qup-core/src/types/opcode.rs.
use qup.Wire.Error.{Opcode}

abbrev pub ping : Opcode
ping = b'P'

abbrev pub identify : Opcode
identify = b'I'

abbrev pub getkeytablen : Opcode
getkeytablen = b'C'

abbrev pub getkey : Opcode
getkey = b'S'

abbrev pub get : Opcode
get = b'G'

abbrev pub write : Opcode
write = b'W'

abbrev pub observe : Opcode
observe = b'N'

abbrev pub unobserve : Opcode
unobserve = b'U'

abbrev pub getcaps : Opcode
getcaps = b'?'

abbrev pub ok : Opcode
ok = b'k'

abbrev pub identified : Opcode
identified = b'i'

abbrev pub keytablen : Opcode
keytablen = b'c'

abbrev pub key : Opcode
key = b's'

abbrev pub value : Opcode
value = b'g'

abbrev pub written : Opcode
written = b'w'

abbrev pub caps : Opcode
caps = b':'

abbrev pub error : Opcode
error = b'@'

abbrev pub changed : Opcode
changed = b'!'
