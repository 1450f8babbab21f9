-- ===== src/Common/Status.antt =====
-- src/common/status.h: `Status`.
use kvmemo.Base.{
  ℕ, Str, str, Str_eq, Str-discrete, List, [], ◌∷◌, ◌++◌, ◌≡◌, refl, ap, sym, Option, some, Bool,
  true, false, ◌==◌, lookup,
}

pub data StatusCode : Type 0 where
  k_ok k_unknown k_invalid_argument k_not_found k_already_exists k_permission_denied : StatusCode
  k_protocol_error k_network_error k_timeout k_resource_exhausted k_internal_error : StatusCode

pub record Status : Type 0 where
  pub code : StatusCode
  pub message : Str

-- the value of the enumerator
unfoldable pub number : StatusCode → ℕ
number k_ok = 0
number k_unknown = 1
number k_invalid_argument = 2
number k_not_found = 3
number k_already_exists = 4
number k_permission_denied = 5
number k_protocol_error = 100
number k_network_error = 101
number k_timeout = 102
number k_resource_exhausted = 200
number k_internal_error = 201

abbrev pub ok : Status
ok = record { code = k_ok; message = [] }

abbrev pub invalid_argument : Str → Status
invalid_argument message = record { code = k_invalid_argument; message = message }

abbrev pub error : StatusCode → Str → Status
error code message = record { code = code; message = message }

abbrev pub not_found : Str → Status
not_found message = record { code = k_not_found; message = message }

abbrev pub already_exists : Str → Status
already_exists message = record { code = k_already_exists; message = message }

abbrev pub permission_denied : Str → Status
permission_denied message = record { code = k_permission_denied; message = message }

abbrev pub protocol_error : Str → Status
protocol_error message = record { code = k_protocol_error; message = message }

abbrev pub network_error : Str → Status
network_error message = record { code = k_network_error; message = message }

abbrev pub timeout : Str → Status
timeout message = record { code = k_timeout; message = message }

abbrev pub resource_exhausted : Str → Status
resource_exhausted message = record { code = k_resource_exhausted; message = message }

abbrev pub internal_error : Str → Status
internal_error message = record { code = k_internal_error; message = message }

unfoldable pub is_ok : Status → Bool
unfolding number
is_ok s = number s.code == 0

unfoldable pub code_to_string : StatusCode → Str
code_to_string k_ok = str "OK"
code_to_string k_unknown = str "UNKNOWN"
code_to_string k_invalid_argument = str "INVALID_ARGUMENT"
code_to_string k_not_found = str "NOT_FOUND"
code_to_string k_already_exists = str "ALREADY_EXISTS"
code_to_string k_permission_denied = str "PERMISSION_DENIED"
code_to_string k_protocol_error = str "PROTOCOL_ERROR"
code_to_string k_network_error = str "NETWORK_ERROR"
code_to_string k_timeout = str "TIMEOUT"
code_to_string k_resource_exhausted = str "RESOURCE_EXHAUSTED"
code_to_string k_internal_error = str "INTERNAL_ERROR"

unfoldable pub to_string : Status → Str
unfolding is_ok code_to_string
to_string s = elim (is_ok s) [
  | true ↦ str "OK"
  | false ↦ code_to_string s.code ++ b':' ∷ b' ' ∷ s.message
]

-- The code that a text begins with, up to the colon.
abbrev names : List (Str × StatusCode)
names =
    (str "OK", k_ok)
    ∷ (str "UNKNOWN", k_unknown)
    ∷ (str "INVALID_ARGUMENT", k_invalid_argument)
    ∷ (str "NOT_FOUND", k_not_found)
    ∷ (str "ALREADY_EXISTS", k_already_exists)
    ∷ (str "PERMISSION_DENIED", k_permission_denied)
    ∷ (str "PROTOCOL_ERROR", k_protocol_error)
    ∷ (str "NETWORK_ERROR", k_network_error)
    ∷ (str "TIMEOUT", k_timeout)
    ∷ (str "RESOURCE_EXHAUSTED", k_resource_exhausted)
    ∷ (str "INTERNAL_ERROR", k_internal_error)
    ∷ []

unfoldable before_colon : Str → Str × Str
before_colon [] = ([], [])
before_colon (c ∷ l) = elim (c == b':') [
  | true ↦ ([], l)
  | false ↦ let (w, r) = before_colon l in (c ∷ w, r)
]

abbrev skip_space : Str → Str
skip_space [] = []
skip_space (c ∷ l) = l

-- The code and the message that a text of `to_string` tells.
unfoldable pub read_status : Str → Option StatusCode × Str
unfolding before_colon
read_status l = let (w, r) = before_colon l in (lookup w names, skip_space r)

-- The text of a status tells its code and its message, if a status that is ok has no message.
pub read_status-to_string :
    (s : Status)
    → (is_ok s ≡ true → s.message ≡ [])
    → read_status (to_string s) ≡ (some s.code, s.message)
unfolding read_status to_string lookup Str-discrete
read_status-to_string s h = go s.code s.message h
  where
    go :
        (c : StatusCode) (m : Str)
        → (is_ok (record { code = c; message = m }) ≡ true → m ≡ [])
        → read_status (to_string (record { code = c; message = m })) ≡ (some c, m)
    go k_ok m h = ap (λ x. (some k_ok, x)) (sym (h refl))
    go k_unknown m h = refl
    go k_invalid_argument m h = refl
    go k_not_found m h = refl
    go k_already_exists m h = refl
    go k_permission_denied m h = refl
    go k_protocol_error m h = refl
    go k_network_error m h = refl
    go k_timeout m h = refl
    go k_resource_exhausted m h = refl
    go k_internal_error m h = refl
