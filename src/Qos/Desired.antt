-- ===== src/Qos/Desired.antt =====
-- src/qos.rs, `desired`: which interfaces are to be shaped, and how.
use nfqttl.Base.{
  ℕ, ◌^◌, ◌<◌, ◌≡◌, refl, subst, arith, true, false, ◌||◌, not, ◌==◌, if◌then◌else◌, Bool-cases,
  Option-cases, ◌⊎◌, inl, inr, List, [], ◌∷◌, Option, none, some, All,
}
use nfqttl.Base.Text.{Text, text_eq, text_eq_iff, has_text, trim, parse_uint}
use nfqttl.Config.{Config}
use nfqttl.Net.{Links, active, text_leb}
use nfqttl.Qos.{Options, options}

-- A `BTreeMap<String, (u32, Options)>`, in the order of the names.
abbrev pub Wanted : Type 0
Wanted = List (Text × (ℕ × Options))

unfoldable pub put : Text → ℕ × Options → Wanted → Wanted
put t v [] = (t, v) ∷ []
put t v ((u, w) ∷ m) =
    if text_eq t u
    then (u, v) ∷ m
    else if text_leb t u
    then (t, v) ∷ (u, w) ∷ m
    else (u, w) ∷ put t v m

abbrev pub put_index : Option ℕ → Text → Options → Wanted → Wanted
put_index none iface o out = out
put_index (some index) iface o out = put iface (index, o) out

abbrev pub index_in : Option Text → Option ℕ
index_in none = none
index_in (some s) = parse_uint (2 ^ 32) (trim s)

-- The content of an interface's file `ifindex` is a parameter, none if it cannot be read.
module _ (ifindex : Text → Option Text) where
  unfoldable pub add_side : Text → ℕ → ℕ → List Text → Wanted → Wanted
  add_side iface kbit flow links out =
      if kbit == 0 || not (has_text links iface)
      then out
      else put_index (index_in (ifindex iface)) iface (options kbit flow) out

  unfoldable pub desired : Config → Links → Wanted
  desired c l =
      if not (active l)
      then []
      else add_side c.sqm_down_iface c.sqm_down_kbit 6 l.down
          (add_side c.sqm_up_iface c.sqm_up_kbit 5 l.up [])

  -- The index is the interface's, the rate is not 0, and the interface is one of the links.
  abbrev pub Shapes : ℕ → ℕ → List Text → ℕ × Options → Text → Type 0
  Shapes kbit flow links v t =
      (0 < kbit)
      × (has_text links t ≡ true)
      × (index_in (ifindex t) ≡ some v.0)
      × (v.1 ≡ options kbit flow)

  put-All :
      (P : Text → ℕ × Options → Type 0) (t : Text) (v : ℕ × Options) (m : Wanted)
      → ((u : Text) → text_eq t u ≡ true → P t v → P u v)
      → P t v
      → All (λ (e : Text × (ℕ × Options)). P e.0 e.1) m
      → All (λ (e : Text × (ℕ × Options)). P e.0 e.1) (put t v m)
  unfolding put
  put-All P t v [] same p h = (p, tt)
  put-All P t v ((u, w) ∷ m) same p (q, h) = elim (Bool-cases (text_eq t u)) [
    | inl equal ↦ rw equal (same u equal p, h)
    | inr differ ↦ elim (Bool-cases (text_leb t u)) [
      | inl first ↦ rw differ (rw first (p, (q, h)))
      | inr later ↦ rw differ (rw later (q, put-All P t v m same p h))
    ]
  ]

  abbrev pub IsSide : Config → Links → Text → ℕ × Options → Type 0
  IsSide c l t v = Shapes c.sqm_up_kbit 5 l.up v t ⊎ Shapes c.sqm_down_kbit 6 l.down v t

  add_side-All :
      (P : Text → ℕ × Options → Type 0) (iface : Text) (kbit flow : ℕ) (links : List Text)
      (out : Wanted)
      → ((v : ℕ × Options) → Shapes kbit flow links v iface → P iface v)
      → All (λ (e : Text × (ℕ × Options)). P e.0 e.1) out
      → All (λ (e : Text × (ℕ × Options)). P e.0 e.1) (add_side iface kbit flow links out)
  unfolding add_side
  add_side-All P iface kbit flow links out p h =
      elim (Bool-cases (kbit == 0 || not (has_text links iface))) [
        | inl skipped ↦ rw skipped h
        | inr shaped ↦ elim (Option-cases (index_in (ifindex iface))) [
          | inl no_index ↦ rw (shaped, no_index) h
          | inr (i, index) ↦
              rw (shaped, index)
                (put-All P iface (i, options kbit flow) out
                  (λ u e x. subst (λ t. P t (i, options kbit flow)) ((text_eq_iff iface u).0 e) x)
                  (p (i, options kbit flow) (ground arith, ground arith, index, refl)) h)
        ]
      ]

  -- Every interface that is to be shaped is a link of its direction with a rate above 0, under the
  -- index that the system gives it, with the parameters of that rate and direction. Nothing is
  -- shaped while the links are not active.
  pub desired-IsSide :
      (c : Config) (l : Links)
      → All (λ (e : Text × (ℕ × Options)). IsSide c l e.0 e.1) (desired c l)
        × (active l ≡ false → desired c l ≡ [])
  unfolding desired
  desired-IsSide c l = elim (Bool-cases (active l)) [
    | inr idle ↦ rw idle (tt, λ _. refl)
    | inl works ↦ rw works (
      add_side-All (IsSide c l) c.sqm_down_iface c.sqm_down_kbit 6 l.down _ (λ v s. inr s)
          (add_side-All (IsSide c l) c.sqm_up_iface c.sqm_up_kbit 5 l.up [] (λ v s. inl s) tt),
      λ no. ground arith,
    )
  ]
