-- ===== src/Firewall/Frames.antt =====
-- The two chains that take turns, and what an installation leaves alone.
use nfqttl.Base.{
  ◌≡◌, refl, ◌∙◌, ap, Bool, true, false, if◌then◌else◌, List, [], ◌∷◌, Option, none, some,
}
use nfqttl.Base.Text.{Text, text_eq}
use nfqttl.Net.{join}
use nfqttl.Firewall.{
  flush, Tool, forward, hook_of, jump_to, other_chain, flush_old, chain_a, chain_b, chain6_a,
  chain6_b,
}
use nfqttl.Firewall.Run.{Ends-map, Ends-both}
use nfqttl.Firewall.Laws.{Same, Changed, Iptables}
use nfqttl.Firewall.Jumps.{others}
use nfqttl.Firewall.Fill.{Only}
use nfqttl.Firewall.Activate.{is_head, hook_jump, Apart}

-- The values of `active`.
pub data Slot : Type 0 where
  nothing first second : Slot

abbrev pub slot_chain : Bool → Slot → Option Text
slot_chain v6 nothing = none
slot_chain v6 first = some (if v6 then chain6_a else chain_a)
slot_chain v6 second = some (if v6 then chain6_b else chain_b)

abbrev pub next_slot : Slot → Slot
next_slot first = second
next_slot _ = first

abbrev pub own_a : Bool → Text
own_a v6 = if v6 then chain6_a else chain_a

abbrev pub own_b : Bool → Text
own_b v6 = if v6 then chain6_b else chain_b

-- The chain is none of those that the program works on.
pub record IsForeign (v6 : Bool) (d : Text) : Type 0 where
  pub not_hook : text_eq (hook_of v6) d ≡ false
  pub not_forward : text_eq forward d ≡ false
  pub not_a : text_eq (own_a v6) d ≡ false
  pub not_b : text_eq (own_b v6) d ≡ false

module _ {S : Type 0} (t : Tool S) (w : Iptables t) where
  -- Other chains and the other rules of `FORWARD` are as they were.
  pub record IsFramed (v6 : Bool) (s u : S) : Type 0 where
    pub foreign : (d : Text) → IsForeign v6 d → w.rules d u ≡ w.rules d s
    pub kept : others (hook_jump v6) (w.rules forward u) ≡ others (hook_jump v6) (w.rules forward s)

  -- The rules are in the chain `c`, and `FORWARD` leads to it first and only once.
  pub record IsInstalled (v6 : Bool) (rs : List Text) (c : Text) (s u : S) : Type 0 where
    pub chain_is : w.rules c u ≡ rs
    pub hook_is : w.rules (hook_of v6) u ≡ join (jump_to c) ∷ []
    pub heads : is_head (hook_jump v6) (w.rules forward u) ≡ true
    pub framed : IsFramed v6 s u

  -- A chain that was in use has its rules.
  abbrev pub ActiveSame : Option Text → S → S → Type 0
  ActiveSame none s u = Unit
  ActiveSame (some old) s u = w.rules old u ≡ w.rules old s

  abbrev pub IsOutcome : (v6 : Bool) → List Text → Slot → S → Bool × Option Text × S → Type 0
  IsOutcome v6 rs k s (true, active, u) =
      (active ≡ some (other_chain v6 (slot_chain v6 k)))
      × IsInstalled v6 rs (other_chain v6 (slot_chain v6 k)) s u
  IsOutcome v6 rs k s (false, active, u) =
      (active ≡ slot_chain v6 k) × IsFramed v6 s u × ActiveSame (slot_chain v6 k) s u

  -- How the chain that is filled differs from the others.
  pub record Differs (v6 : Bool) (k : Slot) (c : Text) : Type 0 where
    pub hook_c : text_eq (hook_of v6) c ≡ false
    pub forward_c : text_eq forward c ≡ false
    pub c_forward : text_eq c forward ≡ false
    pub foreign_c : (d : Text) → IsForeign v6 d → text_eq c d ≡ false

  pub other_chain-Differs : (v6 : Bool) (k : Slot) → Differs v6 k (other_chain v6 (slot_chain v6 k))
  unfolding text_eq
  other_chain-Differs false nothing = record {
    hook_c = refl;
    forward_c = refl;
    c_forward = refl;
    foreign_c = λ d f. f.not_a;
  }
  other_chain-Differs false first = record {
    hook_c = refl;
    forward_c = refl;
    c_forward = refl;
    foreign_c = λ d f. f.not_b;
  }
  other_chain-Differs false second = record {
    hook_c = refl;
    forward_c = refl;
    c_forward = refl;
    foreign_c = λ d f. f.not_a;
  }
  other_chain-Differs true nothing = record {
    hook_c = refl;
    forward_c = refl;
    c_forward = refl;
    foreign_c = λ d f. f.not_a;
  }
  other_chain-Differs true first = record {
    hook_c = refl;
    forward_c = refl;
    c_forward = refl;
    foreign_c = λ d f. f.not_b;
  }
  other_chain-Differs true second = record {
    hook_c = refl;
    forward_c = refl;
    c_forward = refl;
    foreign_c = λ d f. f.not_a;
  }

  pub Only-IsFramed :
      (v6 : Bool) (k : Slot) (s u : S)
      → Only t w (other_chain v6 (slot_chain v6 k)) s u
      → IsFramed v6 s u
  Only-IsFramed v6 k s u h =
      let d = other_chain-Differs v6 k in
      record {
        foreign = λ e f. h e (d.foreign_c e f);
        kept = ap (others (hook_jump v6)) (h forward d.c_forward);
      }

  pub Apart-IsFramed : (v6 : Bool) (s u : S) → Apart t w v6 s u → IsFramed v6 s u
  Apart-IsFramed v6 s u h = record {
    foreign = λ e f. h.elsewhere e f.not_hook f.not_forward;
    kept = h.kept;
  }

  pub IsFramed-trans : (v6 : Bool) (s u v : S) → IsFramed v6 s u → IsFramed v6 u v → IsFramed v6 s v
  IsFramed-trans v6 s u v h k = record {
    foreign = λ e f. k.foreign e f ∙ h.foreign e f;
    kept = k.kept ∙ h.kept;
  }

  -- The chain in use is not touched while the other one is filled, nor by what follows.
  pub Only-ActiveSame :
      (v6 : Bool) (k : Slot) (s u : S)
      → Only t w (other_chain v6 (slot_chain v6 k)) s u
      → ActiveSame (slot_chain v6 k) s u
  unfolding text_eq
  Only-ActiveSame v6 nothing s u h = tt
  Only-ActiveSame false first s u h = h chain_a refl
  Only-ActiveSame true first s u h = h chain6_a refl
  Only-ActiveSame false second s u h = h chain_b refl
  Only-ActiveSame true second s u h = h chain6_b refl

  pub Apart-ActiveSame :
      (v6 : Bool) (k : Slot) (s u : S) → Apart t w v6 s u → ActiveSame (slot_chain v6 k) s u
  unfolding text_eq
  Apart-ActiveSame v6 nothing s u h = tt
  Apart-ActiveSame false first s u h = h.elsewhere chain_a refl refl
  Apart-ActiveSame true first s u h = h.elsewhere chain6_a refl refl
  Apart-ActiveSame false second s u h = h.elsewhere chain_b refl refl
  Apart-ActiveSame true second s u h = h.elsewhere chain6_b refl refl

  pub ActiveSame-trans :
      (a : Option Text) (s u v : S) → ActiveSame a s u → ActiveSame a u v → ActiveSame a s v
  ActiveSame-trans none s u v h k = tt
  ActiveSame-trans (some old) s u v h k = k ∙ h

  abbrev pub ApartFrom : Option Text → Text → Type 0
  ApartFrom none d = Unit
  ApartFrom (some old) d = text_eq old d ≡ false

  pub flush_old-Same :
      (a : Option Text) (s : S) (d : Text)
      → ApartFrom a d
      → w.rules d (flush_old t a s) ≡ w.rules d s
  flush_old-Same none s d ne = refl
  flush_old-Same (some old) s d ne =
      Ends-both (λ u. w.rules d u ≡ w.rules d s) (t.run (flush old) s)
        (Ends-map (Changed w.rules old [] s) (Same w.rules s) _ _ (t.run (flush old) s)
          (w.flush_law old s) (λ u h. h.elsewhere d ne) (λ u h. h d))

  -- The chain that was in use is none of these.
  pub record OldDiffers (v6 : Bool) (k : Slot) : Type 0 where
    pub from_new : ApartFrom (slot_chain v6 k) (other_chain v6 (slot_chain v6 k))
    pub from_hook : ApartFrom (slot_chain v6 k) (hook_of v6)
    pub from_forward : ApartFrom (slot_chain v6 k) forward
    pub from_foreign : (d : Text) → IsForeign v6 d → ApartFrom (slot_chain v6 k) d

  pub slot_chain-OldDiffers : (v6 : Bool) (k : Slot) → OldDiffers v6 k
  unfolding text_eq
  slot_chain-OldDiffers v6 nothing = record {
    from_new = tt;
    from_hook = tt;
    from_forward = tt;
    from_foreign = λ d f. tt;
  }
  slot_chain-OldDiffers false first = record {
    from_new = refl;
    from_hook = refl;
    from_forward = refl;
    from_foreign = λ d f. f.not_a;
  }
  slot_chain-OldDiffers true first = record {
    from_new = refl;
    from_hook = refl;
    from_forward = refl;
    from_foreign = λ d f. f.not_a;
  }
  slot_chain-OldDiffers false second = record {
    from_new = refl;
    from_hook = refl;
    from_forward = refl;
    from_foreign = λ d f. f.not_b;
  }
  slot_chain-OldDiffers true second = record {
    from_new = refl;
    from_hook = refl;
    from_forward = refl;
    from_foreign = λ d f. f.not_b;
  }
