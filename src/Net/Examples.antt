-- ===== src/Net/Examples.antt =====
-- A phone with a mobile upstream and a hotspot.
use nfqttl.Base.{◌≡◌, refl, List, [], ◌∷◌, ◌++◌}
use nfqttl.Base.Text.{
  Text, codes, keep_if, some_of, starts_with, bytes, every, text_eq, lines_from, words_from,
}
use nfqttl.Config.{default, valid_iface}
use nfqttl.Net.{
  classify, defaults, signature, join, dedup, sort, allowed_down, allowed_up, text_leb, to_set,
  filter_map, default_iface, word_after,
}
use nfqttl.Net.Classify.{IsSplit, classify-IsSplit}

abbrev routes : List Text
routes = codes "rmnet0" ∷ codes "dummy0" ∷ []

abbrev addrs : List Text
addrs = codes "wlan1" ∷ codes "rmnet0" ∷ codes "ap0" ∷ codes "wlan1" ∷ []

abbrev live : List Text
live = codes "ap0" ∷ codes "dummy0" ∷ codes "rmnet0" ∷ codes "wlan1" ∷ []

hotspot : signature (classify default routes addrs live) ≡ codes "ap0 wlan1|rmnet0"
unfolding signature join classify dedup sort keep_if allowed_down some_of starts_with valid_iface
    bytes every text_eq allowed_up text_leb
hotspot = refl

default_routes :
    defaults (
      codes "default via 10.0.0.1 dev rmnet0 proto static"
      ++ (10 ∷ codes "10.0.0.0/8 dev rmnet1 scope link"))
    ≡ codes "rmnet0" ∷ []
unfolding defaults to_set filter_map lines_from default_iface words_from text_eq word_after
default_routes = refl

classify-IsSplit_example : IsSplit default routes addrs live (classify default routes addrs live)
classify-IsSplit_example = classify-IsSplit default routes addrs live
