-- ===== src/Ctl/Kept.antt =====
-- What the steps of `stop` keep of the parts that they do not change.
use nfqttl.Base.{
  ℕ, zero, suc, ◌≡◌, Bool, true, false, if◌then◌else◌, List, [], ◌∷◌, All, Option, none, some,
}
use nfqttl.Base.Text.{Text, codes, Signed}
use nfqttl.Net.{join}
use nfqttl.Firewall.{Tool, Command, forward, jump_to, cleanup_chains}
use nfqttl.Firewall.Cleanup.{is_among, IsSpared}
use nfqttl.Firewall.Run.{Ends, Ends-map}
use nfqttl.Firewall.Laws.{has, Iptables}
use nfqttl.Firewall.Cleaned.{IsCleaned, cleanup_chains-IsCleaned}
use nfqttl.Firewall.Kept.{cleanup_chains-kept}
use nfqttl.Util.{Processes, owned_pid, pid_in, owned_in}
use nfqttl.Ctl.Control.{Site, stop_each, stop_orphan, wait_gone, signalled, is_worker_file}

pub record KeptBySite {S : Type 0} (site : Site S) (P : S → Type 0) : Type 0 where
  pub ensured : (s : S) → P s → P (site.ensure_state s).1
  pub paused : (s : S) → P s → P (site.write_paused s).1
  pub written : (name value : Text) (s : S) → P s → P (site.write_state name value s)
  pub terminated : (pid : Signed) (s : S) → P s → P (site.terminate pid s)
  pub slept : (s : S) → P s → P (site.pause s)

module _ {S : Type 0} (site : Site S) (p : Processes S) (P : S → Type 0)
    (kept : KeptBySite site P) where
  signalled-kept : (o : Option Signed) (s : S) → P s → P (signalled site p o s)
  signalled-kept none s h = h
  signalled-kept (some pid) s h = kept.terminated pid s h

  stop_orphan-kept : (name : Text) (s : S) → P s → P (stop_orphan site p name s)
  unfolding stop_orphan
  stop_orphan-kept name s h = at (is_worker_file site p name)
    where
      found : S
      found = signalled site p (owned_in p (pid_in p (site.state_file name s)) (codes "worker") s) s

      at : (x : Bool) → P (if x then found else s)
      at true = signalled-kept _ s h
      at false = h

  pub stop_each-kept : (names : List Text) (s : S) → P s → P (stop_each site p names s)
  unfolding stop_each
  stop_each-kept [] s h = h
  stop_each-kept (name ∷ names) s h = stop_each-kept names _ (stop_orphan-kept name s h)

  pub wait_gone-kept : (n : ℕ) (pid : Signed) (s : S) → P s → P (wait_gone site p n pid s)
  unfolding wait_gone
  wait_gone-kept zero pid s h = h
  wait_gone-kept (suc n) pid s h =
      at (owned_pid p pid (codes "daemon") s) (wait_gone-kept n pid (site.pause s) (kept.slept s h))
    where
      at :
          (x : Bool)
          → P (wait_gone site p n pid (site.pause s))
          → P (if x then wait_gone site p n pid (site.pause s) else s)
      at true k = k
      at false k = h

-- No jump to a chain of the program is among the rules of `FORWARD`.
abbrev pub NoJumps : {S : Type 0} → (Text → S → List Text) → List Text → S → Type 0
NoJumps rules jumps s = All (λ c. has (join (jump_to c)) (rules forward s) ≡ false) jumps

with-kept :
    {S : Type 0} (T F P : S → Type 0) (m : Bool × S)
    → Ends T F m
    → P m.1
    → Ends (λ s. T s × P s) P m
with-kept T F P (true, s) h k = (h, k)
with-kept T F P (false, s) h k = k

-- A cleanup with one tool takes its jumps away, and keeps what the tool keeps.
pub cleanup_chains-NoJumps :
    {S : Type 0} (t : Tool S) (w : Iptables t) (P : S → Type 0)
    (kept : (c : Command) (s : S) → P s → P (t.run c s).1) (jumps chains : List Text) (s : S)
    → is_among chains forward ≡ false
    → P s
    → Ends (λ u. NoJumps w.rules jumps u × P u) P (cleanup_chains t jumps chains s)
cleanup_chains-NoJumps {S} t w P kept jumps chains s apart h =
    with-kept (NoJumps w.rules jumps) (IsSpared t w jumps chains s) P
      (cleanup_chains t jumps chains s)
      (Ends-map (IsCleaned t w jumps chains s) (IsSpared t w jumps chains s) (NoJumps w.rules jumps)
        (IsSpared t w jumps chains s) (cleanup_chains t jumps chains s)
        (cleanup_chains-IsCleaned t w jumps chains s apart) (λ u c. c.gone) (λ u c. c))
      (cleanup_chains-kept t P kept jumps chains s h)
