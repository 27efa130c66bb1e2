-- ===== src/Net.antt =====
-- src/net.rs: which interfaces are the downstreams and the upstreams. The outputs of the `ip`
-- commands are arguments. A `BTreeSet<String>` is an increasing list.
pub mod Order
pub mod Classify
mod Examples
use nfqttl.Base.{
  ℕ, zero, suc, ◌+◌, Bool, true, false, ◌&&◌, ◌||◌, not, leb, ltb, ◌==◌, if◌then◌else◌, List, [],
  ◌∷◌, ◌++◌, length, Option, none, some,
}
use nfqttl.Base.Text.{
  Text, codes, text_eq, every, some_of, has_text, keep_if, trim, split_whitespace, lines,
  split_once, starts_with,
}
use nfqttl.Config.{Config, valid_iface}
use mathlib.Core.List.{reverse}

-- The order of `String`: by code points, which is the order of the UTF-8 bytes.
unfoldable pub text_leb : Text → Text → Bool
text_leb [] t = true
text_leb (a ∷ s) [] = false
text_leb (a ∷ s) (b ∷ t) = ltb a b || (a == b && text_leb s t)

-- `BTreeSet::insert`, and `collect` into a set.
unfoldable pub insert : Text → List Text → List Text
insert x [] = x ∷ []
insert x (y ∷ ys) =
    let rest = insert x ys in
    if text_eq x y then y ∷ ys else if text_leb x y then x ∷ y ∷ ys else y ∷ rest

unfoldable pub to_set : List Text → List Text
unfolding insert
to_set [] = []
to_set (x ∷ xs) = insert x (to_set xs)

-- `sort` is the library's; it is modelled by an insertion sort. `dedup` drops repeats in a row.
unfoldable pub sort_insert : Text → List Text → List Text
sort_insert x [] = x ∷ []
sort_insert x (y ∷ ys) = if text_leb x y then x ∷ y ∷ ys else y ∷ sort_insert x ys

unfoldable pub sort : List Text → List Text
unfolding sort_insert
sort [] = []
sort (x ∷ xs) = sort_insert x (sort xs)

unfoldable pub dedup_after : Text → List Text → List Text
dedup_after x [] = []
dedup_after x (y ∷ ys) =
    let same = dedup_after x ys in
    let new = y ∷ dedup_after y ys in if text_eq x y then same else new

unfoldable pub dedup : List Text → List Text
unfolding dedup_after
dedup [] = []
dedup (x ∷ xs) = x ∷ dedup_after x xs

pub record Links : Type 0 where
  pub down : List Text
  pub up : List Text

-- `join(" ")`
unfoldable pub join : List Text → Text
join [] = []
join (t ∷ []) = t
join (t ∷ u ∷ ts) = t ++ (b' ' ∷ join (u ∷ ts))

unfoldable pub signature : Links → Text
unfolding join
signature l = join l.down ++ (b'|' ∷ join l.up)

abbrev pub is_empty {ℓ} : {A : Type ℓ} → List A → Bool
is_empty [] = true
is_empty (x ∷ xs) = false

abbrev pub active : Links → Bool
active l = not (is_empty l.down) && not (is_empty l.up)

abbrev pub up_prefixes : List Text
up_prefixes =
    codes "rmnet"
    ∷ codes "v4-rmnet"
    ∷ codes "clat"
    ∷ codes "ccmni"
    ∷ codes "pdp"
    ∷ codes "wwan"
    ∷ codes "wlan"
    ∷ codes "eth"
    ∷ codes "tun"
    ∷ codes "tap"
    ∷ codes "wg"
    ∷ codes "tailscale"
    ∷ codes "zt"
    ∷ []

abbrev pub down_prefixes : List Text
down_prefixes =
    codes "ap"
    ∷ codes "wlan"
    ∷ codes "swlan"
    ∷ codes "softap"
    ∷ codes "wifi"
    ∷ codes "rndis"
    ∷ codes "usb"
    ∷ codes "ncm"
    ∷ codes "bnep"
    ∷ codes "bt-pan"
    ∷ codes "bt_pan"
    ∷ codes "br"
    ∷ []

unfoldable pub allowed_up : Text → Bool
allowed_up s = some_of (λ p. starts_with p s) up_prefixes

unfoldable pub allowed_down : Text → Bool
allowed_down s = some_of (λ p. starts_with p s) down_prefixes

-- `windows(2).find(|x| x[0] == name).map(|x| x[1])`
unfoldable pub word_after : Text → List Text → Option Text
word_after name [] = none
word_after name (a ∷ []) = none
word_after name (a ∷ b ∷ ws) = if text_eq a name then some b else word_after name (b ∷ ws)

-- The words of a line as far as `first()` and `get(1)` see them.
abbrev pub first : List Text → Option Text
first [] = none
first (a ∷ ws) = some a

abbrev pub second : List Text → Option Text
second [] = none
second (a ∷ []) = none
second (a ∷ b ∷ ws) = some b

abbrev pub is_text : Option Text → Text → Bool
is_text none t = false
is_text (some s) t = text_eq s t

unfoldable pub default_iface : Text → Option Text
default_iface line =
    let w = split_whitespace line in
    if is_text (first w) (codes "default") then word_after (codes "dev") w else none

unfoldable pub filter_map {ℓ} : {A : Type ℓ} → (A → Option Text) → List A → List Text
filter_map f [] = []
filter_map f (x ∷ xs) = elim (f x) [ none ↦ filter_map f xs | some y ↦ y ∷ filter_map f xs ]

unfoldable pub defaults : Text → List Text
defaults text = to_set (filter_map default_iface (lines text))

-- `trim_end_matches(':')`
unfoldable pub trim_colons_from : Text → Text
trim_colons_from [] = []
trim_colons_from (c ∷ t) = elim (c == b':') [ true ↦ trim_colons_from t | false ↦ c ∷ t ]

-- `trim_end_matches(':').split('@').next()`: the name in front of an `@`.
unfoldable pub iface_name : Text → Text
unfolding trim_colons_from
iface_name s =
    let t = reverse (trim_colons_from (reverse s)) in
    elim (split_once b'@' t) [ none ↦ t | some (a, _) ↦ a ]

-- Two words in a row: `windows(2).any(|x| x == ["scope", "global"])`.
unfoldable pub has_pair : Text → Text → List Text → Bool
has_pair p q [] = false
has_pair p q (a ∷ []) = false
has_pair p q (a ∷ b ∷ ws) = (text_eq a p && text_eq b q) || has_pair p q (b ∷ ws)

unfoldable pub address_iface : Text → Option Text
address_iface line =
    let w = split_whitespace line in
    elim (second w) [
      | none ↦ none
      | some name ↦
          if not (has_pair (codes "scope") (codes "global") w)
          then none
          else if has_text w (codes "tentative") || has_text w (codes "dadfailed")
          then none
          else some (iface_name name)
    ]

unfoldable pub addresses : Text → List Text
addresses text = to_set (filter_map address_iface (lines text))

unfoldable pub live_iface : Text → Option Text
live_iface line = elim (second (split_whitespace line)) [
  | none ↦ none
  | some s ↦ some (iface_name s)
]

unfoldable pub live_ifaces : Text → List Text
live_ifaces text = to_set (filter_map live_iface (lines text))

abbrev pub up_candidates : Config → List Text → List Text
up_candidates c default = if is_empty c.upstreams then keep_if allowed_up default else c.upstreams

abbrev pub down_candidates : Config → List Text → List Text
down_candidates c addrs =
    if is_empty c.downstreams then keep_if allowed_down addrs else c.downstreams

-- The interface is a valid name and up.
abbrev pub usable : List Text → Text → Bool
usable live s = valid_iface s && has_text live s

unfoldable pub classify : Config → List Text → List Text → List Text → Links
classify c default addrs live =
    let up = dedup (sort (keep_if (usable live) (up_candidates c default))) in
    let wanted = λ (s : Text). usable live s && not (has_text up s) in
    record { down = dedup (sort (keep_if wanted (down_candidates c addrs))); up = up }

-- The outputs of `ip -4 route`, `ip -6 route`, `ip addr` and `ip link`; none counts as empty.
abbrev pub output_or : Option Text → Text
output_or none = []
output_or (some t) = t

unfoldable pub extend : List Text → List Text → List Text
extend s [] = s
extend s (t ∷ ts) = extend (insert t s) ts

unfoldable pub discover : Config → (route4 route6 addr link : Option Text) → Links
discover c route4 route6 addr link =
    classify c (extend (defaults (output_or route4)) (defaults (output_or route6)))
      (addresses (output_or addr)) (live_ifaces (output_or link))
