-- ===== src/Node.antt =====
-- src/sentry_mode/satellites/identity.py: the record of a satellite, the document that holds them all, and
-- what makes them valid.
pub mod Platform
use Prim.Native.Char.{code}
use sentry_mode.Prelude.{
  ℕ, zero, suc, String, Bool, true, false, not, ◌&&◌, ◌||◌, Option, none, some, List, [], ◌∷◌, Eq,
  discrete_eq, leb, ltb, ◌==◌, ◌!=◌, string_eq, nat_eq, option_eq, is_some, is_none, if◌then◌else◌,
  all,
}
use sentry_mode.Prelude.Dict.{Dict, lookup, insert, erase}
use sentry_mode.Source.{matches_name}

pub data Status : Type 0 where
  pending approved revoked : Status

unfoldable pub Status-discrete : Discrete Status
Status-discrete = hlevel

instance abbrev pub status_eq : Eq Status
status_eq = discrete_eq Status-discrete

-- What a refused call raises; `invalid` is a ValidationError.
pub data NodeError : Type 0 where
  unknown_node : String → NodeError
  not_approved : Status → NodeError
  wrong_name no_certificate other_certificate : NodeError
  unknown_platform already_registered not_pem nothing_pinned not_a_description invalid : NodeError
  os_error : NodeError

pub data Result {ℓ} (A : Type ℓ) : Type ℓ where
  ok : A → Result A
  err : NodeError → Result A

pub record NodeRecord : Type 0 where
  pub node_id : String
  pub display_name : String
  pub profile : String
  pub platform : String
  pub zone : Option String
  pub status : Status
  pub fingerprint : Option String
  pub serial : Option String
  pub agent_version : Option String
  pub protocol : ℕ
  pub registered_at : ℕ
  pub approved_at : Option ℕ
  pub revoked_at : Option ℕ
  pub revoked_reason : Option String

abbrev pub may_publish : NodeRecord → Bool
may_publish r = r.status == approved

pub record NodeDocument : Type 0 where
  pub revision : ℕ
  pub hub_epoch : ℕ
  pub nodes : Dict NodeRecord

abbrev pub blank : NodeDocument
blank = record { revision = 0; hub_epoch = 0; nodes = [] }

unfoldable pub size : String → ℕ
size String.[] = 0
size (String.◌∷◌ c s) = suc (size s)

-- `min_length` and `max_length`
abbrev pub within : ℕ → ℕ → String → Bool
within low high s = leb low (size s) && leb (size s) high

abbrev pub if_given : (String → Bool) → Option String → Bool
if_given test none = true
if_given test (some s) = test s

-- `[0-9a-f]`
abbrev is_hex : ℕ → Bool
is_hex c = leb b'0' c && leb c b'9' || leb b'a' c && leb c b'f'

unfoldable pub all_hex : String → Bool
all_hex String.[] = true
all_hex (String.◌∷◌ c s) = is_hex (code c) && all_hex s

abbrev is_digest : String → Bool
is_digest s = all_hex s && size s == 64

-- The constraints of the model's fields.
unfoldable pub is_valid_record : NodeRecord → Bool
unfolding size all_hex
is_valid_record r =
    matches_name r.node_id
    && within 1 120 r.display_name
    && within 1 40 r.profile
    && within 1 40 r.platform
    && if_given matches_name r.zone
    && if_given is_digest r.fingerprint
    && if_given (within 0 64) r.serial
    && if_given (within 0 32) r.agent_version
    && if_given (within 0 200) r.revoked_reason

unfoldable pub is_valid : NodeDocument → Bool
is_valid d = all (λ (k, r). is_valid_record r) d.nodes

-- What the libraries do with a certificate: the part of a text between the lines of PEM, base64
-- (none where it raises a ValueError), and the digest in hexadecimal digits.
pub record Crypto : Type 0 where
  pub pem_body : String → Option String
  pub b64decode : String → Option (List ℕ)
  pub sha256 : List ℕ → String

abbrev is_space : ℕ → Bool
is_space c = leb 9 c && leb c 13 || leb 28 c && leb c 32 || c == 133 || c == 160

-- `"".join(s.split())`
unfoldable squeezed : String → String
squeezed String.[] = ""
squeezed (String.◌∷◌ c s) =
    let rest = squeezed s in if is_space (code c) then rest else String.◌∷◌ c rest

-- `fingerprint` of a text; none is a ValueError.
unfoldable pub fingerprint : Crypto → String → Option String
unfolding squeezed
fingerprint crypto certificate = elim (crypto.pem_body certificate) [
  | none ↦ none
  | some body ↦ elim (crypto.b64decode (squeezed body)) [
    | none ↦ none
    | some der ↦ some (crypto.sha256 der)
  ]
]
