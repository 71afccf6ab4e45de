-- ===== src/Source.antt =====
-- src/sentry_mode/sources/models.py: the names, kinds and health of sources.
pub mod Names
pub mod Registry
use Prim.Native.Char.{Char, code}
use sentry_mode.Prelude.{
  ℕ, zero, suc, ◌+◌, String, Bool, true, false, ◌&&◌, ◌||◌, Option, none, some, Eq, leb, ◌==◌,
  nat_eq, if◌then◌else◌, discrete_eq,
}

pub data SourceKind : Type 0 where
  camera microphone speaker sensor presence : SourceKind

pub data SourceState : Type 0 where
  ready disabled degraded failed : SourceState

pub data Quality : Type 0 where
  valid degraded unavailable unknown : Quality

pub data ClockStatus : Type 0 where
  synced unsynced unknown : ClockStatus

pub SourceKind-discrete : Discrete SourceKind
SourceKind-discrete = hlevel

unfoldable pub Quality-discrete : Discrete Quality
Quality-discrete = hlevel

instance abbrev pub kind_eq : Eq SourceKind
kind_eq = discrete_eq SourceKind-discrete

instance abbrev pub quality_eq : Eq Quality
quality_eq = discrete_eq Quality-discrete

abbrev pub is_disabled : SourceState → Bool
is_disabled disabled = true
is_disabled _ = false

-- A source on this node has no node name; one on a satellite has the node's.
pub record SourceRef : Type 0 where
  pub node : Option String
  pub name : String

-- `[a-z0-9]`
abbrev is_alnum : ℕ → Bool
is_alnum c = leb b'a' c && leb c b'z' || leb b'0' c && leb c b'9'

-- What is left of a name after its first character: at most `room` characters of `[a-z0-9-]`, the
-- last of them no hyphen.
unfoldable pub name_tail : ℕ → Bool → String → Bool
name_tail room last_ok String.[] = last_ok
name_tail zero last_ok (String.◌∷◌ c s) = false
name_tail (suc room) last_ok (String.◌∷◌ c s) =
    (is_alnum (code c) || code c == b'-') && name_tail room (is_alnum (code c)) s

-- The pattern `NAME`: one to forty characters.
unfoldable pub matches_name : String → Bool
unfolding name_tail
matches_name String.[] = false
matches_name (String.◌∷◌ c s) = is_alnum (code c) && name_tail 39 true s

abbrev pub is_valid_ref : SourceRef → Bool
is_valid_ref r = elim r.node [
  | none ↦ matches_name r.name
  | some n ↦ matches_name n && matches_name r.name
]

-- The model's validation: `none` is a ValidationError.
unfoldable pub make_ref : Option String → String → Option SourceRef
make_ref node name =
    let r : SourceRef = record { node = node; name = name } in
    if is_valid_ref r then some r else none

-- `value.partition(".")`: what stands before the first dot, and what follows it if there is one.
unfoldable pub partition : String → String × Option String
partition String.[] = (String.[], none)
partition (String.◌∷◌ c s) =
    let (before, after) = partition s in
    if code c == b'.' then (String.[], some s) else (String.◌∷◌ c before, after)

abbrev parsed : String → Option String → Option SourceRef
parsed node none = make_ref none node
parsed node (some name) = make_ref (some node) name

unfoldable pub parse : String → Option SourceRef
unfolding partition make_ref matches_name
parse value = let (node, name) = partition value in parsed node name

-- `a + b` on texts, by recursion so that it computes at variables.
unfoldable pub concat : String → String → String
concat String.[] t = t
concat (String.◌∷◌ c s) t = String.◌∷◌ c (concat s t)

-- `SourceRef.id`
unfoldable pub ref_id : SourceRef → String
unfolding concat
ref_id r = elim r.node [ none ↦ r.name | some n ↦ concat n (concat "." r.name) ]

abbrev pub is_local : SourceRef → Bool
is_local r = elim r.node [ none ↦ true | some _ ↦ false ]

pub data Origin : Type 0 where
  local satellite : Origin

pub Origin-discrete : Discrete Origin
Origin-discrete = hlevel

instance abbrev pub origin_eq : Eq Origin
origin_eq = discrete_eq Origin-discrete

pub record SourceRecord : Type 0 where
  pub ref : SourceRef
  pub kind : SourceKind
  pub zone : Option String
  pub origin : Origin
  pub state : SourceState

-- `check_origin_matches_ref`
unfoldable pub origin_matches_ref : SourceRecord → Bool
origin_matches_ref r = elim r.origin [
  | local ↦ is_local r.ref
  | satellite ↦ elim (is_local r.ref) [ true ↦ false | false ↦ true ]
]
