-- ===== src/Net/Classify.antt =====
-- Which interfaces `classify` reports on each side.
use nfqttl.Base.{◌≡◌, ◌∙◌, Bool, ◌&&◌, not, List}
use nfqttl.Base.Text.{Text, has_text, keep_if}
use nfqttl.Config.{Config}
use nfqttl.Net.{Links, sort, dedup, up_candidates, down_candidates, usable, classify}
use nfqttl.Net.Order.{
  has_text-keep_if, has_text-sort, has_text-dedup, Chain, StrictlyBefore, dedup-sort-Chain,
}

chosen :
    (p : Text → Bool) (ts : List Text) (s : Text)
    → has_text (dedup (sort (keep_if p ts))) s ≡ (has_text ts s && p s)
chosen p ts s = has_text-dedup _ s ∙ has_text-sort _ s ∙ has_text-keep_if p ts s

-- The upstreams are the usable candidates, and the downstreams are the usable candidates that are
-- no upstreams; both lists are in strictly increasing order.
pub record IsSplit (c : Config) (default addrs live : List Text) (l : Links) : Type 0 where
  pub up_is : (s : Text) → has_text l.up s ≡ (has_text (up_candidates c default) s && usable live s)
  pub down_is :
      (s : Text)
      → has_text l.down s
        ≡ (has_text (down_candidates c addrs) s && (usable live s && not (has_text l.up s)))
  pub up_increasing : Chain StrictlyBefore l.up
  pub down_increasing : Chain StrictlyBefore l.down

-- An interface is reported as an upstream exactly if it is a candidate (configured, or by default a
-- route's device with an allowed prefix), a valid name and up. It is reported as a downstream
-- exactly if it is a candidate there, valid, up and no upstream. Both lists are in strictly
-- increasing order.
pub classify-IsSplit :
    (c : Config) (default addrs live : List Text)
    → IsSplit c default addrs live (classify c default addrs live)
unfolding classify
classify-IsSplit c default addrs live =
    let up = dedup (sort (keep_if (usable live) (up_candidates c default))) in
    record {
      up_is = chosen (usable live) (up_candidates c default);
      down_is = chosen (λ s. usable live s && not (has_text up s)) (down_candidates c addrs);
      up_increasing = dedup-sort-Chain (keep_if (usable live) (up_candidates c default));
      down_increasing =
          dedup-sort-Chain
            (keep_if (λ s. usable live s && not (has_text up s)) (down_candidates c addrs));
    }
