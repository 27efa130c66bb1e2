-- ===== src/Firewall/Run.antt =====
-- Runs that succeed or fail over a state, in the order of `&&` and `||`.
use nfqttl.Base.{Bool, true, false}

module _ {S : Type 0} where
  abbrev pub andalso : Bool × S → (S → Bool × S) → Bool × S
  andalso (true, s) k = k s
  andalso (false, s) k = (false, s)

  abbrev pub orelse : Bool × S → (S → Bool × S) → Bool × S
  orelse (true, s) k = (true, s)
  orelse (false, s) k = k s

  -- The result of the first is ignored.
  abbrev pub after : Bool × S → (S → Bool × S) → Bool × S
  after (b, s) k = k s

  -- What holds after a success, and after a failure.
  abbrev pub Ends : (S → Type 0) → (S → Type 0) → Bool × S → Type 0
  Ends T F (true, s) = T s
  Ends T F (false, s) = F s

  pub Ends-andalso :
      (T F T' F' : S → Type 0) (m : Bool × S) (k : S → Bool × S)
      → Ends T F m
      → ((s : S) → T s → Ends T' F' (k s))
      → ((s : S) → F s → F' s)
      → Ends T' F' (andalso m k)
  Ends-andalso T F T' F' (true, s) k h hk hf = hk s h
  Ends-andalso T F T' F' (false, s) k h hk hf = hf s h

  pub Ends-orelse :
      (T F T' F' : S → Type 0) (m : Bool × S) (k : S → Bool × S)
      → Ends T F m
      → ((s : S) → T s → T' s)
      → ((s : S) → F s → Ends T' F' (k s))
      → Ends T' F' (orelse m k)
  Ends-orelse T F T' F' (true, s) k h ht hk = ht s h
  Ends-orelse T F T' F' (false, s) k h ht hk = hk s h

  pub Ends-map :
      (T F T' F' : S → Type 0) (m : Bool × S)
      → Ends T F m
      → ((s : S) → T s → T' s)
      → ((s : S) → F s → F' s)
      → Ends T' F' m
  Ends-map T F T' F' (true, s) h ht hf = ht s h
  Ends-map T F T' F' (false, s) h ht hf = hf s h

  -- What holds in both cases.
  pub Ends-both : (P : S → Type 0) (m : Bool × S) → Ends P P m → P m.1
  Ends-both P (true, s) h = h
  Ends-both P (false, s) h = h
