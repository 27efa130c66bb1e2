-- ===== src/Daemon/Tracked.antt =====
-- One sample of the queues: what is recorded of a queue, whatever the other queues do.
use nfqttl.Base.{
  ℕ, ◌≤◌, max, ◌≡◌, ◌≢◌, refl, ap, ◌∙◌, subst, ◌⊎◌, inl, inr, arith, true, ◌==◌, Bool-cases, ==_iff,
  ==_refl, List, [], ◌∷◌, Option, some, All,
}
use nfqttl.Base.Text.{some_of}
use nfqttl.Daemon.{
  Entry, Progress, get, insert, is_sampled, retain, stall_count, stall_entries, stall_sample,
}

pub get-insert_self : (q : ℕ) (v : ℕ × ℕ × ℕ) (m : Progress) → get q (insert q v m) ≡ some v
unfolding get insert
get-insert_self q v [] = rw (==_refl q) refl
get-insert_self q v ((p, w) ∷ m) = elim (Bool-cases (p == q)) [
  | inl same ↦ rw same (rw same refl)
  | inr different ↦ rw different (rw different (get-insert_self q v m))
]

get-insert_ne : (q p : ℕ) (v : ℕ × ℕ × ℕ) (m : Progress) → p ≢ q → get q (insert p v m) ≡ get q m
unfolding get insert
get-insert_ne q p v [] h = ground arith
get-insert_ne q p v ((r, w) ∷ m) h = ground (arith, get-insert_ne q p v m h)

get-retain :
    (q : ℕ) (es : List Entry) (m : Progress)
    → is_sampled es q ≡ true
    → get q (retain es m) ≡ get q m
unfolding get retain
get-retain q es [] h = refl
get-retain q es ((p, v) ∷ m) h = elim (Bool-cases (p == q)) [
  | inl same ↦
      let e : is_sampled es p ≡ true = ap (is_sampled es) ((==_iff p q).0 same) ∙ h in
      rw e (rw same refl)
  | inr different ↦ elim (Bool-cases (is_sampled es p)) [
    | inl stays ↦ rw stays (rw different (get-retain q es m h))
    | inr goes ↦ rw (goes, different) (get-retain q es m h)
  ]
]

-- The sample has one entry of the queue, and it is this one.
unfoldable pub Sampled : ℕ → ℕ → ℕ → List Entry → Type 0
Sampled q len seq [] = ⊥
Sampled q len seq ((p, l, s) ∷ es) =
    ((p ≡ q) × (l ≡ len) × (s ≡ seq) × All (λ (e : Entry). e.0 ≢ q) es)
    ⊎ ((p ≢ q) × Sampled q len seq es)

Sampled-is_sampled :
    (q len seq : ℕ) (es : List Entry) → Sampled q len seq es → is_sampled es q ≡ true
unfolding Sampled some_of
Sampled-is_sampled q len seq [] h = elim h [ ]
Sampled-is_sampled q len seq ((p, l, s) ∷ es) (inl (e, _, _, _)) = rw (e, ==_refl q) refl
Sampled-is_sampled q len seq ((p, l, s) ∷ es) (inr (_, h)) =
    ground (arith, Sampled-is_sampled q len seq es h)

stall_entries-worst :
    (es : List Entry) (m : Progress) (worst : ℕ) → worst ≤ (stall_entries es m worst).1
unfolding stall_entries
stall_entries-worst [] m worst = omega arith
stall_entries-worst ((q, len, seq) ∷ es) m worst =
    let n = stall_count (get q m) len seq in
    omega (arith, stall_entries-worst es (insert q (len, seq, n) m) (max worst n))

pub stall_entries-absent :
    (q : ℕ) (es : List Entry) (m : Progress) (worst : ℕ)
    → All (λ (e : Entry). e.0 ≢ q) es
    → get q (stall_entries es m worst).0 ≡ get q m
unfolding stall_entries
stall_entries-absent q [] m worst h = refl
stall_entries-absent q ((p, len, seq) ∷ es) m worst (ne, h) =
    let n = stall_count (get p m) len seq in
    stall_entries-absent q es (insert p (len, seq, n) m) (max worst n) h
    ∙ get-insert_ne q p (len, seq, n) m ne

-- A queue's own count after what was known of it, and that the worst is no less.
abbrev pub Tracks : ℕ → ℕ → ℕ → Option (ℕ × ℕ × ℕ) → Progress × ℕ → Type 0
Tracks q len seq known r =
    (get q r.0 ≡ some (len, seq, stall_count known len seq)) × (stall_count known len seq ≤ r.1)

stall_entries-Tracks :
    (q len seq : ℕ) (es : List Entry) (m : Progress) (worst : ℕ)
    → Sampled q len seq es
    → Tracks q len seq (get q m) (stall_entries es m worst)
unfolding Sampled stall_entries
stall_entries-Tracks q len seq [] m worst h = elim h [ ]
stall_entries-Tracks q len seq ((p, l, s) ∷ es) m worst (inl (e, el, et, h)) =
    rw (e, el, et)
      (let n = stall_count (get q m) len seq in
        (
          stall_entries-absent q es (insert q (len, seq, n) m) (max worst n) h
              ∙ get-insert_self q (len, seq, n) m,
          omega (arith, stall_entries-worst es (insert q (len, seq, n) m) (max worst n)),
        ))
stall_entries-Tracks q len seq ((p, l, s) ∷ es) m worst (inr (ne, h)) =
    let n = stall_count (get p m) l s in
    let same = get-insert_ne q p (l, s, n) m ne in
    let tracked = stall_entries-Tracks q len seq es (insert p (l, s, n) m) (max worst n) h in
    subst (λ o. Tracks q len seq o (stall_entries es (insert p (l, s, n) m) (max worst n))) same
      tracked

pub stall_sample-Tracks :
    (q len seq : ℕ) (es : List Entry) (m : Progress)
    → Sampled q len seq es
    → Tracks q len seq (get q m) (stall_sample m es)
unfolding stall_sample
stall_sample-Tracks q len seq es m h =
    let same = get-retain q es m (Sampled-is_sampled q len seq es h) in
    subst (λ o. Tracks q len seq o (stall_entries es (retain es m) 0)) same
      (stall_entries-Tracks q len seq es (retain es m) 0 h)
