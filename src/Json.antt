-- ===== src/Json.antt =====
-- Messages as JSON values, and the pattern of the identifiers and tokens in them.
use Prim.Native.Char.{code}
use sentry_mode.Prelude.{ℕ, suc, String, Bool, true, ◌&&◌, ◌||◌, List, [], ◌∷◌, leb, ◌==◌, nat_eq}
use sentry_mode.Prelude.Int.{ℤ}
use sentry_mode.Prelude.Dict.{Dict}

mutual
  pub data Json : Type 0 where
    null : Json
    boolean : Bool → Json
    integer : ℤ → Json
    decimal : ℤ → ℕ → Json
    text : String → Json
    array : Elements → Json
    object : Members → Json

  pub data Elements : Type 0 where
    no_elements : Elements
    element : Json → Elements → Elements

  pub data Members : Type 0 where
    no_members : Members
    member : String → Json → Members → Members

abbrev pub fields : Members → Dict Json
fields no_members = []
fields (member k v ms) = (k, v) ∷ fields ms

abbrev pub elements : Elements → List Json
elements no_elements = []
elements (element v es) = v ∷ elements es

-- `[A-Za-z0-9_-]`
abbrev is_url_safe : ℕ → Bool
is_url_safe c =
    leb b'A' c && leb c b'Z'
    || leb b'a' c && leb c b'z'
    || leb b'0' c && leb c b'9'
    || c == b'_'
    || c == b'-'

unfoldable pub all_url_safe : String → Bool
all_url_safe String.[] = true
all_url_safe (String.◌∷◌ c s) = is_url_safe (code c) && all_url_safe s

unfoldable pub characters : String → ℕ
characters String.[] = 0
characters (String.◌∷◌ c s) = suc (characters s)

-- `[A-Za-z0-9_-]{least,most}`
unfoldable pub matches_url_safe : ℕ → ℕ → String → Bool
matches_url_safe least most s =
    all_url_safe s && (leb least (characters s) && leb (characters s) most)
