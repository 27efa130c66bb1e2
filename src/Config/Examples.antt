-- ===== src/Config/Examples.antt =====
-- The readings of two small configuration files.
use nfqttl.Base.{◌≡◌, refl, ◌++◌, [], ◌∷◌, some, Post}
use nfqttl.Base.Text.{Text, codes, parse_uint}
use nfqttl.Config.{Key, set_key, default, load}
use nfqttl.Config.Bounds.{IsLoaded, load-IsLoaded}
use nfqttl.Config.Validate.{bounds, validate}
use nfqttl.Config.Validate.Accepts.{IsAccepted, validate-IsAccepted}
use nfqttl.Config.Validate.Exact.{number_of, set_key_exact}

abbrev newline : Text
newline = 10 ∷ []

abbrev shaped : Text
shaped =
    codes "# shaping"
    ++ newline
    ++ codes "TTL=65"
    ++ newline
    ++ codes "UPSTREAMS='rmnet0 wlan0'"
    ++ newline
    ++ codes "SQM_UP_KBIT=5000"
    ++ newline
    ++ codes "SQM_UP_IFACE=rmnet0"

-- The backlog limit is above the queue's length.
abbrev crowded : Text
crowded =
    codes "QUEUE_MAXLEN=256"
    ++ newline
    ++ codes "MAX_BACKLOG=\"1000\""
    ++ newline
    ++ codes "WORKERS=99"

load-IsLoaded_example : IsLoaded (load (some crowded))
load-IsLoaded_example = load-IsLoaded (some crowded)

validate-IsAccepted_example : Post (λ _. IsAccepted (load (some shaped))) (validate (some shaped))
validate-IsAccepted_example = validate-IsAccepted (some shaped)

set_key_exact_example :
    number_of Key.max_backlog (set_key Key.max_backlog (codes "100") default) ≡ 100
unfolding bounds parse_uint
set_key_exact_example =
    set_key_exact Key.max_backlog (codes "100") default 32 32768 100 refl refl refl
