-- ===== src/Firewall/Words.antt =====
-- src/firewall.rs: the names of the chains, the commands, and the words of the rules. The run of
-- `iptables` (or `ip6tables`) is a parameter.
use nfqttl.Base.{
  ℕ, ◌+◌, ◌-◌, Bool, true, false, ◌&&◌, not, ltb, if◌then◌else◌, List, [], ◌∷◌, ◌++◌, Option, none,
  some,
}
use nfqttl.Base.Text.{Text, codes, text_eq, some_of, starts_with, to_text}

abbrev pub queue_base : ℕ
queue_base = 6464

abbrev pub chain_hook : Text
chain_hook = codes "nfqttl_v40h"

abbrev pub chain_a : Text
chain_a = codes "nfqttl_v40a"

abbrev pub chain_b : Text
chain_b = codes "nfqttl_v40b"

abbrev pub chain6_hook : Text
chain6_hook = codes "nfqttl6_v40h"

abbrev pub chain6_a : Text
chain6_a = codes "nfqttl6_v40a"

abbrev pub chain6_b : Text
chain6_b = codes "nfqttl6_v40b"

abbrev pub forward : Text
forward = codes "FORWARD"

-- The commands, each with the arguments it stands for. A rule is given by its words.
pub data Command : Type 0 where
  -- `-N c`, `-F c`, `-X c`
  new flush delete_chain : Text → Command
  -- `-A c …`, `-I c 1 …`, `-R c 1 …`, `-C c …`, `-D c …`
  append insert replace check delete : Text → List Text → Command
  -- `-D c 2`
  delete_second : Text → Command

-- The tool over the state of the kernel: whether a command succeeds, and the lines that `-S c`
-- prints, none if it fails.
pub record Tool (S : Type 0) : Type 0 where
  pub run : Command → S → Bool × S
  pub listed : Text → S → List Text

-- What `choose_v6` decides, and `install6` is told, in words.
pub data Ipv6Plan : Type 0 where
  pass block pass_no_ip6tables normalize : Ipv6Plan

abbrev pub hook_of : Bool → Text
hook_of v6 = if v6 then chain6_hook else chain_hook

abbrev pub jump_to : Text → List Text
jump_to c = codes "-j" ∷ c ∷ []

-- `l.starts_with("-A ")`
abbrev pub is_rule : Text → Bool
is_rule = starts_with (codes "-A ")

abbrev pub is_first : Text → List Text → Bool
is_first rule [] = false
is_first rule (l ∷ ls) = text_eq l rule && not (some_of (text_eq rule) ls)

abbrev pub last_queue : ℕ → ℕ
last_queue workers = queue_base + workers - 1

-- The target of the rules, in words, as they are installed.
abbrev pub target4 : Bool → ℕ → ℕ → List Text
target4 kernel workers ttl =
    if kernel
    then codes "TTL" ∷ codes "--ttl-set" ∷ to_text ttl ∷ []
    else if ltb 1 workers
    then codes "NFQUEUE"
      ∷ codes "--queue-balance"
      ∷ (to_text queue_base ++ (b':' ∷ to_text (last_queue workers)))
      ∷ codes "--queue-bypass"
      ∷ []
    else codes "NFQUEUE" ∷ codes "--queue-num" ∷ to_text queue_base ∷ codes "--queue-bypass" ∷ []

abbrev pub target6 : Ipv6Plan → ℕ → List Text
target6 Ipv6Plan.normalize hl = codes "HL" ∷ codes "--hl-set" ∷ to_text hl ∷ []
target6 _ hl = codes "DROP" ∷ []

-- The target as `rules_ok` expects it.
abbrev pub is_normalize : Ipv6Plan → Bool
is_normalize Ipv6Plan.normalize = true
is_normalize _ = false

unfoldable pub expected_target : Bool → Bool → ℕ → ℕ → Ipv6Plan → Text
expected_target v6 kernel workers value mode =
    if v6
    then (if is_normalize mode then codes "HL --hl-set " ++ to_text value else codes "DROP")
    else if kernel
    then codes "TTL --ttl-set " ++ to_text value
    else if ltb 1 workers
    then codes "NFQUEUE --queue-balance "
      ++ (to_text queue_base ++ (b':' ∷ (to_text (last_queue workers) ++ codes " --queue-bypass")))
    else codes "NFQUEUE --queue-num " ++ (to_text queue_base ++ codes " --queue-bypass")

abbrev pub expected_line : Text → Text → Text → Text → Text
expected_line c target i o =
    codes "-A " ++ (c ++ (codes " -i " ++ (i ++ (codes " -o " ++ (o ++ (codes " -j " ++ target))))))

-- One downstream with all upstreams, then all downstreams.
unfoldable pub expected_from : Text → Text → Text → List Text → List Text
expected_from c target i [] = []
expected_from c target i (o ∷ up) =
    let rest = expected_from c target i up in
    if text_eq i o then rest else expected_line c target i o ∷ rest

unfoldable pub expected : Text → Text → List Text → List Text → List Text
expected c target [] up = []
expected c target (i ∷ down) up = expected_from c target i up ++ expected c target down up

abbrev pub rule_words : List Text → Text → Text → List Text
rule_words target i o = codes "-i" ∷ i ∷ codes "-o" ∷ o ∷ codes "-j" ∷ target

abbrev pub is_mode_pass : Ipv6Plan → Bool
is_mode_pass Ipv6Plan.pass = true
is_mode_pass Ipv6Plan.pass_no_ip6tables = true
is_mode_pass _ = false

-- The chain that is not active.
abbrev pub is_text_of : Option Text → Text → Bool
is_text_of none c = false
is_text_of (some d) c = text_eq d c

abbrev pub other_chain : Bool → Option Text → Text
other_chain v6 active =
    if v6
    then (if is_text_of active chain6_a then chain6_b else chain6_a)
    else if is_text_of active chain_a
    then chain_b
    else chain_a
