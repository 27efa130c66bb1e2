-- ===== src/Base/Runs.antt =====
-- Runs that return a result or an error, over a state.
use nfqttl.Base.{Result, ok, err, panic, stuck, Error}

module _ {S : Type 0} where
  abbrev pub andthen :
      {A B : Type 0} → Result Error A × S → (A → S → Result Error B × S) → Result Error B × S
  andthen (ok a, s) k = k a s
  andthen (err e, s) k = (err e, s)
  andthen (panic, s) k = (panic, s)
  andthen (stuck, s) k = (stuck, s)

  -- What holds after a success, and after any other end.
  abbrev pub Ends : {A : Type 0} → (A → S → Type 0) → (S → Type 0) → Result Error A × S → Type 0
  Ends T F (ok a, s) = T a s
  Ends T F (err e, s) = F s
  Ends T F (panic, s) = F s
  Ends T F (stuck, s) = F s

  pub Ends-andthen :
      {A B : Type 0} (T : A → S → Type 0) (F : S → Type 0) (T' : B → S → Type 0) (F' : S → Type 0)
      (m : Result Error A × S) (k : A → S → Result Error B × S)
      → Ends T F m
      → ((a : A) (s : S) → T a s → Ends T' F' (k a s))
      → ((s : S) → F s → F' s)
      → Ends T' F' (andthen m k)
  Ends-andthen T F T' F' (ok a, s) k h hk hf = hk a s h
  Ends-andthen T F T' F' (err e, s) k h hk hf = hf s h
  Ends-andthen T F T' F' (panic, s) k h hk hf = hf s h
  Ends-andthen T F T' F' (stuck, s) k h hk hf = hf s h

  pub Ends-map :
      {A : Type 0} (T : A → S → Type 0) (F : S → Type 0) (T' : A → S → Type 0) (F' : S → Type 0)
      (m : Result Error A × S)
      → Ends T F m
      → ((a : A) (s : S) → T a s → T' a s)
      → ((s : S) → F s → F' s)
      → Ends T' F' m
  Ends-map T F T' F' (ok a, s) h ht hf = ht a s h
  Ends-map T F T' F' (err e, s) h ht hf = hf s h
  Ends-map T F T' F' (panic, s) h ht hf = hf s h
  Ends-map T F T' F' (stuck, s) h ht hf = hf s h
