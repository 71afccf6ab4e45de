-- ===== src/Node/Platform.antt =====
-- src/sentry_mode/satellites/platforms.py: the kinds of machine that a satellite can be. The `summary`
-- of a platform, a text for the page, is left out.
use sentry_mode.Prelude.{ℕ, String, Bool, true, false, List, [], ◌∷◌, is_some}
use sentry_mode.Prelude.Dict.{Dict, lookup}

pub record Platform : Type 0 where
  pub name : String
  pub architecture : String
  pub drivers : List String
  pub max_sources : ℕ
  pub max_config_bytes : ℕ
  pub streams : List String
  pub manual_tests : Bool
  pub experimental : Bool
  pub board_fields : List String

abbrev pub linux : Platform
linux = record {
  name = "linux-agent";
  architecture = "linux";
  drivers =
      "gpio" ∷ "onewire" ∷ "bme280" ∷ "adc" ∷ "csi" ∷ "microphone" ∷ "ble" ∷ "board" ∷ "dummy" ∷ [];
  max_sources = 32;
  max_config_bytes = 65536;
  streams = "video" ∷ "audio" ∷ [];
  manual_tests = true;
  experimental = false;
  board_fields =
      "uptime_seconds" ∷ "temperature_c" ∷ "load1" ∷ "memory_available_kb" ∷ "throttled" ∷ [];
}

abbrev pub pico_w : Platform
pico_w = record {
  name = "pico-w-sensor";
  architecture = "rp2040";
  drivers = "gpio" ∷ "onewire" ∷ "adc" ∷ "ble" ∷ "microphone" ∷ "board" ∷ [];
  max_sources = 8;
  max_config_bytes = 2048;
  streams = "audio" ∷ [];
  manual_tests = false;
  experimental = true;
  board_fields = "uptime_seconds" ∷ "temperature_c" ∷ "memory_available_kb" ∷ "reset" ∷ [];
}

abbrev pico_2w : Platform
pico_2w = record pico_w { name = "pico-2w-sensor"; architecture = "rp2350" }

abbrev pico_wired : Platform
pico_wired = record pico_w {
  name = "pico-wired";
  drivers = "gpio" ∷ "onewire" ∷ "adc" ∷ "microphone" ∷ "board" ∷ [];
  streams = [];
}

abbrev pico_2_wired : Platform
pico_2_wired = record pico_wired { name = "pico-2-wired"; architecture = "rp2350" }

abbrev catalogue : Dict Platform
catalogue =
    ("linux-agent", linux)
    ∷ ("pico-w-sensor", pico_w)
    ∷ ("pico-2w-sensor", pico_2w)
    ∷ ("pico-wired", pico_wired)
    ∷ ("pico-2-wired", pico_2_wired)
    ∷ []

abbrev pub default_platform : String
default_platform = "linux-agent"

unfoldable pub known : String → Bool
unfolding lookup
known name = is_some (lookup name catalogue)
