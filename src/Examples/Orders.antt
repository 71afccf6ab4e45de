-- ===== src/Examples/Orders.antt =====
-- A command that asks a board's camera for video.
use sentry_mode.Command.Seen.{
  Seen, received, applied, failed, Use, remembers, asks, after, remember, outcome, same_answer,
}
use sentry_mode.Prelude.{◌≡◌, refl, true, false, none, some, List, [], ◌∷◌, any, arith, eq_iff}
use sentry_mode.Prelude.Int.{pos}
use sentry_mode.Prelude.Dict.{lookup}
use sentry_mode.Source.{matches_name, name_tail}
use sentry_mode.Json.{
  Json, Members, no_members, member, fields, all_url_safe, characters, matches_url_safe,
}
use sentry_mode.Command.{
  Command, ok, is_unknown, given, unless, power_of_10, is_stream_length, started, video,
  configuration, stream_of, issued, addressed, parse,
}
use sentry_mode.Command.Closed.{IsLawful, parse-IsLawful}

abbrev members : Members
members = member "command_id" (Json.text "k1") (
    member "action" (Json.text "video_start") (
      member "node_id" (Json.text "zero") (
        member "hub_epoch" (Json.integer (pos 4)) (
          member "duration_seconds" (Json.decimal (pos 605) 1) (
            member "stream_id" (Json.text "stream-1") (
              member "source_id" (Json.text "camera-1") (
                member "port" (Json.integer (pos 8554))
                  (member "token" (Json.text "0123456789abcdef0123456789abcdef") no_members))))))))

abbrev command : Command
command = record {
  command_id = "k1";
  action = "video_start";
  node_id = "zero";
  hub_epoch = 4;
  capability = none;
  grant_id = none;
  duration_seconds = record { numerator = pos 605; places = 1 };
  sequence = 0;
  revision = 0;
  sources = [];
  stream = record {
    stream_id = some "stream-1";
    source_id = some "camera-1";
    port = 8554;
    token = some "0123456789abcdef0123456789abcdef";
  };
}

command_accepted : parse (Json.object members) "zero" ≡ ok command
unfolding lookup matches_name name_tail given unless all_url_safe characters matches_url_safe
    power_of_10 is_stream_length started video configuration stream_of issued addressed parse
command_accepted = refl

parse-IsLawful_example :
    (ms : Members) × (Json.object members ≡ Json.object ms)
    × (any is_unknown (fields ms) ≡ false)
    × (matches_name "zero" ≡ true)
    × IsLawful "zero" command
parse-IsLawful_example = parse-IsLawful (Json.object members) "zero" command command_accepted

abbrev memory : Seen
memory = record { capacity = 3; outcomes = ("a", received) ∷ [] }

-- Another command is handled, and one is asked for that is not known.
abbrev uses : List Use
uses = remembers "c" failed ∷ asks "x" ∷ []

same_answer_example : (outcome (after (remember memory "b" applied) uses) "b").1 ≡ some applied
same_answer_example =
    same_answer memory "b" applied uses (omega arith)
      ((λ e. ground (arith, eq_iff "c" "b", e)), (tt, tt))
