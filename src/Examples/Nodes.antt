-- ===== src/Examples/Nodes.antt =====
-- Nodes of satellites/identity.py: a hub and a shell that share one file.
use sentry_mode.Prelude.{
  ◌≤◌, ◌<◌, String, ◌≡◌, refl, ◌≢◌, ◌↔◌, none, some, List, [], ◌∷◌, arith, string_eq, option_eq,
  nat_eq,
}
use sentry_mode.Prelude.Dict.{lookup, insert}
use sentry_mode.Source.{matches_name, name_tail}
use sentry_mode.Node.{
  NodeDocument, NodeRecord, approved, revoked, Crypto, ok, blank, size, is_valid, is_valid_record,
  all_hex,
}
use sentry_mode.Identity.{
  Memory, Credentials, refresh, load, open_registry, update, persist, require, authenticate,
  next_epoch, next_epoch_change, revoke, revoke_change, approve, approve_change,
}
use sentry_mode.Identity.Calls.{Op, Call, World, after, step, run, Stamped, Later, Rising, latest}
use sentry_mode.Identity.Answers.{Vouches, authenticate-Vouches}
use sentry_mode.Identity.Epochs.{counts_up, epochs_increase}
use sentry_mode.Identity.Revoked.{takes_away, revoked_until_approved}
use sentry_mode.Identity.Readable.{lets_in, revoke_readable, approved_heard}

abbrev digest : String
digest = "0123456789abcdef0123456789abcdef0123456789abcdef0123456789abcdef"

abbrev crypto : Crypto
crypto = record { pem_body = λ s. some s; b64decode = λ s. some []; sha256 = λ der. digest }

abbrev zero : NodeRecord
zero = record {
  node_id = "zero";
  display_name = "Zero";
  profile = "sensor-presence";
  platform = "linux-agent";
  zone = none;
  status = approved;
  fingerprint = some digest;
  serial = none;
  agent_version = none;
  protocol = 5;
  registered_at = 1;
  approved_at = some 2;
  revoked_at = none;
  revoked_reason = none;
}

abbrev document : NodeDocument
document = record { revision = 2; hub_epoch = 6; nodes = ("zero", zero) ∷ [] }

abbrev fresh : Memory
fresh = record { document = blank; read_at = none }

abbrev world : World
world = record { memory = λ p. fresh; file = some (document, 10) }

world-Stamped : Stamped 10 world
world-Stamped = record {
  read = λ p stamp e. absurd (ground (arith, e));
  stands = λ d stamp e. ground (arith, e);
}

abbrev honest : Credentials
honest = record { username = some "zero"; client_id = none; certificate_fingerprint = some digest }

authenticate-Vouches_example :
    ((authenticate fresh (some (document, 10)) "zero" honest).result ≡ ok zero) ↔ (
      ((x : NodeDocument) × ((refresh fresh (some (document, 10))).1 ≡ ok x))
      × Vouches (refresh fresh (some (document, 10))).0.document "zero" honest zero)
authenticate-Vouches_example = authenticate-Vouches fresh (some (document, 10)) "zero" honest zero

-- The shell takes the node away, and the hub is started again.
abbrev between : List Call
between =
    takes_away "shell" (some 12) "zero" none 3
    ∷ record { caller = "hub"; op = Op.starts; written = none }
    ∷ []

between-Rising : Rising 10 (counts_up "hub" (some 11) ∷ between)
unfolding Rising Later latest
between-Rising =
    (λ s e. ground (arith, e), (λ s e. ground (arith, e), (λ s e. ground (arith, e), tt)))

first_epoch : (next_epoch (world.memory "hub") world.file (some 11)).result ≡ ok 7
unfolding next_epoch update persist next_epoch_change refresh load is_valid is_valid_record all_hex
    size matches_name name_tail
first_epoch = refl

second_epoch :
    let w' = run crypto (step crypto world (counts_up "hub" (some 11))) between in
    (next_epoch (w'.memory "hub") w'.file (some 13)).result ≡ ok 8
unfolding run step after next_epoch update persist next_epoch_change refresh load is_valid
    is_valid_record all_hex size matches_name name_tail revoke revoke_change require open_registry
    lookup insert
second_epoch = refl

epochs_increase_example : 7 < 8
epochs_increase_example =
    epochs_increase crypto 10 world "hub" "hub" (some 11) (some 13) between 7 8 world-Stamped
      between-Rising first_epoch second_epoch

-- The shell forgets the node and registers it again.
abbrev registered_again : List Call
registered_again =
    record { caller = "shell"; op = Op.forgets "zero"; written = some 12 }
    ∷ record {
      caller = "shell";
      op =
          Op.registers "zero"
            (record {
              display_name = none;
              profile = "sensor-presence";
              platform = "linux-agent";
              zone = none;
              certificate = some "pem";
            })
            4;
      written = some 13;
    }
    ∷ []

registered_again-Rising : Rising 10 (takes_away "shell" (some 11) "zero" none 3 ∷ registered_again)
unfolding Rising Later latest
registered_again-Rising =
    (λ s e. ground (arith, e), (λ s e. ground (arith, e), (λ s e. ground (arith, e), tt)))

abbrev taken : NodeRecord
taken = record zero { status = revoked; revoked_at = some 3 }

taken_away : (revoke fresh (some (document, 10)) (some 11) "zero" none 3).result ≡ ok taken
unfolding update persist revoke revoke_change require refresh load is_valid is_valid_record all_hex
    size matches_name name_tail lookup insert
taken_away = refl

revoked_until_approved_example :
    let w' =
      run crypto
        (step crypto world (takes_away "shell" (some 11) "zero" none 3))
        registered_again in
    (authenticate (w'.memory "hub") w'.file "zero" honest).result ≢ ok zero
revoked_until_approved_example =
    revoked_until_approved crypto 10 world "shell" "hub" "zero" none 3 (some 11) registered_again
      honest taken zero world-Stamped registered_again-Rising (tt, (tt, tt)) taken_away

opened : (open_registry (some (document, 10))).1 ≡ ok document
unfolding open_registry load is_valid is_valid_record all_hex size matches_name name_tail
opened = refl

opened_revoked :
    (revoke
      (open_registry (some (document, 10))).0
      (some (document, 10))
      (some 11)
      "zero"
      none
      3).result
    ≡ ok taken
unfolding open_registry update persist revoke revoke_change require refresh load is_valid
    is_valid_record all_hex size matches_name name_tail lookup insert
opened_revoked = refl

revoke_readable_example :
    ((y : NodeDocument) × ((open_registry
          (revoke
            (open_registry (some (document, 10))).0
            (some (document, 10))
            (some 11)
            "zero"
            none
            3).file).1
        ≡ ok y))
    ↔ ((s : String) → none ≡ some s → size s ≤ 200)
revoke_readable_example =
    revoke_readable document document 10 (some 11) "zero" none 3 taken opened opened_revoked

abbrev again : NodeRecord
again = record zero { approved_at = some 9 }

let_in : (approve crypto fresh (some (document, 10)) (some 11) "zero" none none 9).result ≡ ok again
unfolding update persist approve approve_change require refresh load is_valid is_valid_record
    all_hex size matches_name name_tail lookup insert
let_in = refl

abbrev with_again : NodeDocument
with_again = record document { revision = 3; nodes = ("zero", again) ∷ [] }

opens_again :
    (open_registry (step crypto world (lets_in "shell" (some 11) "zero" none none 9)).file).1
    ≡ ok with_again
unfolding step after open_registry update persist approve approve_change require refresh load
    is_valid is_valid_record all_hex size matches_name name_tail lookup insert
opens_again = refl

approved_heard_example :
    let w' = step crypto world (lets_in "shell" (some 11) "zero" none none 9) in
    (authenticate (w'.memory "hub") w'.file "zero" honest).result ≡ ok again
unfolding Later
approved_heard_example =
    approved_heard crypto 10 world "shell" "hub" "zero" none none 9 (some 11) honest again
      with_again world-Stamped (λ s e. ground (arith, e)) let_in opens_again
      (λ a e. ground (arith, e)) (λ a e. absurd (ground (arith, e))) (λ a e. ground (arith, e))
