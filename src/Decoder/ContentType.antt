-- ===== src/Decoder/ContentType.antt =====
-- DNSTAP_PROTOBUF_CONTENT_TYPE of src/dnswire/dnstap.h, and how src/decoder.c compares a content
-- type field with it: by `strncmp` up to the field's length.
use dnswire.Prelude.{Bool, true, false, [], ◌∷◌, ◌==◌, if◌then◌else◌}
use dnswire.Exec.{Bytes}

-- "protobuf:dnstap.Dnstap"
abbrev pub content_type : Bytes
content_type =
    b'p' ∷ b'r' ∷ b'o' ∷ b't' ∷ b'o' ∷ b'b' ∷ b'u' ∷ b'f' ∷ b':' ∷ b'd' ∷ b'n' ∷ b's' ∷ b't' ∷ b'a'
    ∷ b'p' ∷ b'.' ∷ b'D' ∷ b'n' ∷ b's' ∷ b't' ∷ b'a' ∷ b'p' ∷ []

-- `!strncmp(s, field, length)`, where `field` holds `length` bytes and `s` ends with a zero byte.
unfoldable pub strncmp_same : Bytes → Bytes → Bool
strncmp_same s [] = true
strncmp_same [] (c ∷ field) = c == 0
strncmp_same (a ∷ s) (c ∷ field) = if a == c then strncmp_same s field else false

unfoldable pub is_content_type : Bytes → Bool
unfolding strncmp_same
is_content_type field = strncmp_same content_type field
