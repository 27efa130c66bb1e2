-- ===== src/Daemon/Loop/Trace.antt =====
-- In which order the daemon may call: the workers are stopped only right after a cleanup, and rules
-- that queue packets are installed only while workers are known to be up.
use nfqttl.Base.{
  ◌≡◌, ◌∙◌, ap, arith, Bool, true, false, ◌&&◌, not, if◌then◌else◌, List, [], ◌∷◌, ◌++◌, Option,
  none, some,
}
use nfqttl.Daemon.{
  Action, cleanup, stop_workers, wait_rounds, checked_workers, started_workers, installed4,
  installed6,
}

-- Whether the workers are known to be up, and whether the last call was a cleanup.
pub record Status : Type 0 where
  pub up : Bool
  pub cleaned : Bool

-- A call that is out of order has no next status. `queued` is whether the rules queue packets.
abbrev pub observe_call : Bool → Status → Action → Option Status
observe_call queued t cleanup = some (record { up = t.up; cleaned = true })
observe_call queued t stop_workers =
    if t.cleaned then some (record { up = false; cleaned = false }) else none
observe_call queued t (wait_rounds n) = some (record { up = t.up; cleaned = false })
observe_call queued t (checked_workers b) = some (record { up = b; cleaned = false })
observe_call queued t (started_workers b) = some (record { up = b; cleaned = false })
observe_call queued t (installed4 b) =
    if queued && not t.up then none else some (record { up = t.up; cleaned = false })
observe_call queued t (installed6 b) = some (record { up = t.up; cleaned = false })

abbrev pub then_observe : Option Status → (Status → Option Status) → Option Status
then_observe none k = none
then_observe (some t) k = k t

unfoldable pub observe_calls : Bool → Status → List Action → Option Status
observe_calls queued t [] = some t
observe_calls queued t (a ∷ xs) =
    then_observe (observe_call queued t a) (λ u. observe_calls queued u xs)

abbrev pub unused : Status
unused = record { up = false; cleaned = false }

-- The calls are in order, and end in the status.
abbrev pub Ordered : Bool → List Action → Status → Type 0
Ordered queued xs t = observe_calls queued unused xs ≡ some t

none_not_some : (u : Status) → none ≡ some u → ⊥
none_not_some u h = ground arith

observe_calls-append :
    (queued : Bool) (xs ys : List Action) (t u : Status)
    → observe_calls queued t xs ≡ some u
    → observe_calls queued t (xs ++ ys) ≡ observe_calls queued u ys
unfolding observe_calls
observe_calls-append queued [] ys t u h =
    ap (λ o. then_observe o (λ x. observe_calls queued x ys)) h
observe_calls-append queued (a ∷ xs) ys t u h =
    stepped (observe_call queued t a) h (observe_calls-append queued xs ys)
  where
    stepped :
        (o : Option Status)
        → then_observe o (λ x. observe_calls queued x xs) ≡ some u
        → ((x u : Status)
            → observe_calls queued x xs ≡ some u
            → observe_calls queued x (xs ++ ys) ≡ observe_calls queued u ys)
        → then_observe o (λ x. observe_calls queued x (xs ++ ys)) ≡ observe_calls queued u ys
    stepped none h rest = absurd (none_not_some u h)
    stepped (some x) h rest = rest x u h

pub Ordered-append :
    (queued : Bool) (xs ys : List Action) (t u : Status)
    → Ordered queued xs t
    → observe_calls queued t ys ≡ some u
    → Ordered queued (xs ++ ys) u
Ordered-append queued xs ys t u h k = observe_calls-append queued xs ys unused t h ∙ k
