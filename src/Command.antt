-- ===== src/Command.antt =====
-- satellite/src/sentry_satellite/commands.py: what the hub is allowed to tell a node to do.
-- A message is a JSON value. A number that is not an integer is a decimal, n / 10 ^ k; what is no number
-- to JSON (NaN, Infinity) is not modelled.
pub mod Closed
pub mod Seen
pub use sentry_mode.Json.{Json, Elements, Members, fields, elements}
use sentry_mode.Json.{matches_url_safe, null, boolean, integer, decimal, text, array, object}
use sentry_mode.Prelude.{
  ℕ, zero, suc, ◌+◌, ◌*◌, ◌≤◌, String, Bool, true, false, not, ◌&&◌, ◌||◌, Option, none, some, List,
  [], ◌∷◌, ◌++◌, map, ltb, leb, is_some, contains, any, all, length, ◌==◌, ◌!=◌, string_eq, nat_eq,
  if◌then◌else◌,
}
use sentry_mode.Prelude.Int.{ℤ, pos, negsuc, ltb_ℤ, leb_ℤ}
use sentry_mode.Prelude.Dict.{Dict, lookup}
use sentry_mode.Source.{matches_name}

abbrev pub capabilities : List String
capabilities = "events" ∷ "video" ∷ "audio" ∷ []

abbrev pub video_actions : List String
video_actions = "video_start" ∷ "video_renew" ∷ "video_stop" ∷ []

abbrev pub audio_actions : List String
audio_actions = "audio_start" ∷ "audio_renew" ∷ "audio_stop" ∷ []

abbrev pub media_actions : List String
media_actions =
    "video_start" ∷ "video_renew" ∷ "video_stop" ∷ "audio_start" ∷ "audio_renew" ∷ "audio_stop" ∷ []

abbrev pub actions : List String
actions = "grant" ∷ "renew" ∷ "revoke" ∷ "stop" ∷ "configure" ∷ media_actions

abbrev pub video_fields : List String
video_fields = "stream_id" ∷ "source_id" ∷ "port" ∷ "token" ∷ []

abbrev pub known_fields : List String
known_fields =
    "command_id" ∷ "action" ∷ "node_id" ∷ "hub_epoch" ∷ "capability" ∷ "grant_id"
    ∷ "duration_seconds" ∷ "sequence" ∷ "revision" ∷ "sources" ∷ video_fields

abbrev pub max_sources : ℕ
max_sources = 32

abbrev pub max_video_seconds : ℕ
max_video_seconds = 600

pub data CommandError : Type 0 where
  not_an_object unknown_field no_id bad_action bad_name other_node no_epoch bad_capability :
      CommandError
  bad_duration bad_sequence bad_revision bad_sources bad_entry unwanted_configuration : CommandError
  unwanted_stream bad_stream_id too_many_fields bad_length bad_port bad_token : CommandError

pub data Result {ℓ} (A : Type ℓ) : Type ℓ where
  ok : A → Result A
  err : CommandError → Result A

-- n / 10 ^ k seconds
pub record Duration : Type 0 where
  pub numerator : ℤ
  pub places : ℕ

-- What a media command says of its stream.
pub record Stream : Type 0 where
  pub stream_id : Option String
  pub source_id : Option String
  pub port : ℕ
  pub token : Option String

abbrev pub no_stream : Stream
no_stream = record { stream_id = none; source_id = none; port = 0; token = none }

-- `capability` and `grant_id` are kept as they come where the action does not ask for them.
pub record Command : Type 0 where
  pub command_id : String
  pub action : String
  pub node_id : String
  pub hub_epoch : ℕ
  pub capability : Option Json
  pub grant_id : Option Json
  pub duration_seconds : Duration
  pub sequence : ℕ
  pub revision : ℕ
  pub sources : List Json
  pub stream : Stream

-- `if refused: raise CommandError`
unfoldable pub unless {ℓ} : {A : Type ℓ} → Bool → CommandError → Result A → Result A
unless refused e rest = if refused then err e else rest

-- A value that is read, or the error.
unfoldable pub given {ℓ κ} :
    {A : Type ℓ} {B : Type κ} → Option A → CommandError → (A → Result B) → Result B
given none e next = err e
given (some a) e next = next a

abbrev pub text_if : (String → Bool) → Option Json → Option String
text_if test (some (text s)) = if test s then some s else none
text_if test _ = none

-- `isinstance(x, int) and not isinstance(x, bool) and x >= 0`, where an absent one is `missing`
abbrev natural_or : Option ℕ → Option Json → Option ℕ
natural_or missing none = missing
natural_or missing (some (integer (pos n))) = some n
natural_or missing (some _) = none

abbrev pub not_negative : ℤ → ℕ → Option Duration
not_negative n k = if ltb_ℤ n (pos 0) then none else some (record { numerator = n; places = k })

abbrev duration_of : Option Json → Option Duration
duration_of none = some (record { numerator = pos 0; places = 0 })
duration_of (some (integer n)) = not_negative n 0
duration_of (some (decimal n k)) = not_negative n k
duration_of (some _) = none

unfoldable pub power_of_10 : ℕ → ℕ
power_of_10 zero = 1
power_of_10 (suc k) = 10 * power_of_10 k

-- `0 < duration <= MAX_VIDEO_SECONDS`
unfoldable pub is_stream_length : Duration → Bool
is_stream_length d =
    ltb_ℤ (pos 0) d.numerator && leb_ℤ d.numerator (pos (max_video_seconds * power_of_10 d.places))

abbrev pub is_object : Json → Bool
is_object (object ms) = true
is_object _ = false

abbrev has : Dict Json → String → Bool
has message k = is_some (lookup k message)

abbrev pub is_stop : String → Bool
is_stop action = action == "video_stop" || action == "audio_stop"

abbrev pub is_renewal : String → Bool
is_renewal action = action == "video_renew" || action == "audio_renew"

abbrev is_port : ℕ → Bool
is_port n = leb 1024 n && leb n 65535

abbrev only_id : String → Stream
only_id stream_id = record { stream_id = some stream_id; source_id = none; port = 0; token = none }

abbrev more_than_id : Dict Json → Bool
more_than_id message = any (has message) ("source_id" ∷ "port" ∷ "token" ∷ [])

-- The rest of `_video` for a start.
unfoldable pub started : Dict Json → String → Result Stream
started message stream_id =
    given (text_if matches_name (lookup "source_id" message)) CommandError.bad_name (λ source_id.
      given (natural_or none (lookup "port" message)) CommandError.bad_port (λ port.
        unless (not (is_port port)) CommandError.bad_port (
          given (text_if (matches_url_safe 32 128) (lookup "token" message)) CommandError.bad_token
            (λ token. ok (record {
              stream_id = some stream_id;
              source_id = some source_id;
              port = port;
              token = some token;
            })))))

-- `_video`: the stream a media command is about.
unfoldable pub video : String → Dict Json → Duration → Result Stream
video action message duration =
    given (text_if (matches_url_safe 8 64) (lookup "stream_id" message)) CommandError.bad_stream_id
      (λ stream_id.
        if is_stop action
        then unless (more_than_id message) CommandError.too_many_fields (ok (only_id stream_id))
        else unless (not (is_stream_length duration)) CommandError.bad_length (
            if is_renewal action
            then unless (more_than_id message) CommandError.too_many_fields (ok (only_id stream_id))
            else started message stream_id))

abbrev pub needs_capability : String → Bool
needs_capability action = contains action ("grant" ∷ "renew" ∷ "revoke" ∷ [])

abbrev pub names_capability : Option Json → Bool
names_capability (some (text c)) = contains c capabilities
names_capability _ = false

abbrev list_of : Option Json → Option (List Json)
list_of none = some []
list_of (some (array es)) = some (elements es)
list_of (some _) = none

-- The revision and the sources of a `configure`; no other action takes them.
unfoldable pub configuration : String → Dict Json → Result (ℕ × List Json)
configuration action message =
    if action == "configure"
    then given (natural_or (some 0) (lookup "revision" message)) CommandError.bad_revision
        (λ revision. unless (ltb revision 1) CommandError.bad_revision (
          given (list_of (lookup "sources" message)) CommandError.bad_sources (λ sources.
            unless (ltb max_sources (length sources)) CommandError.bad_sources (
              unless (not (all is_object sources)) CommandError.bad_entry
                (ok (revision, sources))))))
    else unless (has message "revision" || has message "sources")
        CommandError.unwanted_configuration (ok (0, []))

abbrev pub is_unknown : String × Json → Bool
is_unknown (k, v) = not (contains k known_fields)

-- The stream of a media command; no other action takes one.
unfoldable pub stream_of : String → Dict Json → Duration → Result Stream
stream_of action message duration =
    if contains action media_actions
    then video action message duration
    else unless (any (has message) video_fields) CommandError.unwanted_stream (ok no_stream)

-- From the epoch on.
unfoldable pub issued : Dict Json → String → String → String → Result Command
issued message command_id action node_id =
    given (natural_or none (lookup "hub_epoch" message)) CommandError.no_epoch (λ epoch.
      unless (needs_capability action && not (names_capability (lookup "capability" message)))
        CommandError.bad_capability
        (given (duration_of (lookup "duration_seconds" message)) CommandError.bad_duration
          (λ duration.
            given (natural_or (some 0) (lookup "sequence" message)) CommandError.bad_sequence
              (λ sequence. elim (configuration action message) [
                | err e ↦ err e
                | ok (revision, sources) ↦ elim (stream_of action message duration) [
                  | err e ↦ err e
                  | ok stream ↦ ok (record {
                    command_id = command_id;
                    action = action;
                    node_id = node_id;
                    hub_epoch = epoch;
                    capability = lookup "capability" message;
                    grant_id = lookup "grant_id" message;
                    duration_seconds = duration;
                    sequence = sequence;
                    revision = revision;
                    sources = sources;
                    stream = stream;
                  })
                ]
              ]))))

unfoldable pub addressed : Dict Json → String → Result Command
addressed message node_id = unless (any is_unknown message) CommandError.unknown_field (
    given (text_if (λ s. s != "") (lookup "command_id" message)) CommandError.no_id (λ command_id.
      given (text_if (λ s. contains s actions) (lookup "action" message)) CommandError.bad_action
        (λ action.
          given (text_if matches_name (lookup "node_id" message)) CommandError.bad_name
            (λ addressed_to.
              unless (addressed_to != node_id) CommandError.other_node
                (issued message command_id action addressed_to)))))

unfoldable pub parse : Json → String → Result Command
parse (object ms) node_id = addressed (fields ms) node_id
parse _ node_id = err CommandError.not_an_object
