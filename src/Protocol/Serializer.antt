-- ===== src/Protocol/Serializer.antt =====
-- src/protocol/serializer.h: `Serializer`, the bytes of a response.
pub mod Replies
use kvmemo.Base.{ℕ, Str, str, List, [], ◌∷◌, ◌++◌, length, if◌then◌else◌}
use kvmemo.Protocol.Decimal as Decimal
use kvmemo.Protocol.Response.{Response, is_error}

unfoldable pub serialize_bulk_string : Str → Str
serialize_bulk_string value =
    (b'$' ∷ Decimal.print (length value)) ++ b'\r' ∷ b'\n' ∷ (value ++ b'\r' ∷ b'\n' ∷ [])

unfoldable pub serialize_error : Str → Str
serialize_error message = str "-ERR" ++ (message ++ b'\r' ∷ b'\n' ∷ [])

-- a response that is no error, by its message
abbrev pub serialize_ok : Str → Str
serialize_ok [] = str "+OK\r\n"
serialize_ok (c ∷ message) = serialize_bulk_string (c ∷ message)

unfoldable pub serialize : Response → Str
unfolding is_error serialize_bulk_string serialize_error
serialize r = if is_error r then serialize_error r.message else serialize_ok r.message
