-- ===== src/Daemon/Stalls.antt =====
-- How long a queue that stands still goes unnoticed.
use nfqttl.Base.{
  ℕ, ◌+◌, ◌≤◌, ◌<◌, min, max, ◌≡◌, ◌≢◌, refl, sym, ap, ltb, ◌&&◌, if◌then◌else◌, ◌∙◌, subst, arith,
  ◌==◌, List, [], ◌∷◌, length, Option, none, some, All,
}
use nfqttl.Daemon.{Entry, Progress, get, insert, retain, stall_count, stall_entries, stall_sample}
use nfqttl.Daemon.Tracked.{get-insert_self, Sampled, stall_entries-absent, stall_sample-Tracks}

-- The samples in turn, with the last result.
unfoldable pub stall_samples : List (List Entry) → Progress × ℕ → Progress × ℕ
stall_samples [] r = r
stall_samples (es ∷ samples) r = stall_samples samples (stall_sample r.0 es)

-- How often a queue has stood still with these packets: once more than before if there are packets
-- and their number and the last of them are as they were, else not at all.
unfoldable pub stood : Option (ℕ × ℕ × ℕ) → ℕ → ℕ → ℕ
stood none len seq = 0
stood (some (l, s, n)) len seq = if ltb 0 len && (l == len && s == seq) then min 255 (n + 1) else 0

stall_count-stood :
    (known : Option (ℕ × ℕ × ℕ)) (len seq : ℕ) → stall_count known len seq ≡ stood known len seq
unfolding stood
stall_count-stood none len seq = refl
stall_count-stood (some (l, s, n)) len seq = ground arith

-- The queue's own count is exact, and the worst is no less.
pub record IsCounted (q len seq n : ℕ) (r : Progress × ℕ) : Type 0 where
  pub own : get q r.0 ≡ some (len, seq, n)
  pub worst : n ≤ r.1

stall_samples-IsCounted :
    (q len seq n : ℕ) (samples : List (List Entry)) (r : Progress × ℕ)
    → 0 < len
    → n ≤ 255
    → All (Sampled q len seq) samples
    → IsCounted q len seq n r
    → IsCounted q len seq (min 255 (n + length samples)) (stall_samples samples r)
unfolding stall_samples
stall_samples-IsCounted q len seq n [] r p b h c =
    let e : min 255 (n + 0) ≡ n = omega arith in
    record { own = c.own ∙ ap (λ k. some (len, seq, k)) (sym e); worst = omega (arith, c.worst) }
stall_samples-IsCounted q len seq n (es ∷ samples) r p b h c =
    let (got, worst) = stall_sample-Tracks q len seq es r.0 h.0 in
    let count : stall_count (get q r.0) len seq ≡ min 255 (n + 1) = rw c.own (ground arith) in
    let next =
      stall_samples-IsCounted q len seq (min 255 (n + 1)) samples (stall_sample r.0 es) p
        (omega arith) h.1
        (record {
          own = got ∙ ap (λ k. some (len, seq, k)) count;
          worst = omega (arith, worst, count);
        }) in
    let e : min 255 (min 255 (n + 1) + length samples) ≡ min 255 (n + length (es ∷ samples)) =
      omega arith in
    subst (λ k. IsCounted q len seq k (stall_samples samples (stall_sample r.0 es))) e next

stood-le : (known : Option (ℕ × ℕ × ℕ)) (len seq : ℕ) → stood known len seq ≤ 255
unfolding stood
stood-le none len seq = omega arith
stood-le (some (l, s, n)) len seq = ground arith

-- Each queue has one row.
unfoldable pub Distinct : List Entry → Type 0
Distinct [] = Unit {0}
Distinct ((q, len, seq) ∷ es) = All (λ (e : Entry). e.0 ≢ q) es × Distinct es

abbrev pub count_in : Option (ℕ × ℕ × ℕ) → ℕ
count_in none = 0
count_in (some (len, seq, n)) = n

-- The highest count of the queues of a sample.
unfoldable pub highest : Progress → List Entry → ℕ
highest m [] = 0
highest m ((q, len, seq) ∷ es) = max (count_in (get q m)) (highest m es)

stall_entries-highest :
    (es : List Entry) (m : Progress) (worst : ℕ)
    → Distinct es
    → (stall_entries es m worst).1 ≡ max worst (highest (stall_entries es m worst).0 es)
unfolding stall_entries Distinct highest
stall_entries-highest [] m worst d = omega arith
stall_entries-highest ((q, len, seq) ∷ es) m worst (ne, d) =
    let n = stall_count (get q m) len seq in
    let k = insert q (len, seq, n) m in
    let own = stall_entries-absent q es k (max worst n) ne ∙ get-insert_self q (len, seq, n) m in
    omega (arith, ap count_in own, stall_entries-highest es k (max worst n) d)

unfoldable pub last_of : List Entry → List (List Entry) → List Entry
last_of es [] = es
last_of es (fs ∷ samples) = last_of fs samples

stall_samples-highest :
    (es : List Entry) (samples : List (List Entry)) (r : Progress × ℕ)
    → All Distinct (es ∷ samples)
    → (stall_samples (es ∷ samples) r).1
      ≡ highest (stall_samples (es ∷ samples) r).0 (last_of es samples)
unfolding stall_samples stall_sample last_of
stall_samples-highest es [] r (d, _) = omega (arith, stall_entries-highest es (retain es r.0) 0 d)
stall_samples-highest es (fs ∷ samples) r (_, d) =
    stall_samples-highest fs samples (stall_sample r.0 es) d

-- For samples with one row for each queue: a queue with packets that is in each of the samples,
-- always with the same length and the same last packet, is counted once per sample after the first,
-- whatever the other queues do. The first sample makes its count one more than was known if the
-- length and the last packet are as they were, and 0 if not; after the samples the count is exactly
-- that with one more for each that follows, 255 at most. The worst count is the highest count of the
-- queues of the last sample.
pub stall_samples_detects :
    (q len seq : ℕ) (es : List Entry) (samples : List (List Entry)) (r : Progress × ℕ)
    → 0 < len
    → All (Sampled q len seq) (es ∷ samples)
    → All Distinct (es ∷ samples)
    → IsCounted q len seq
        (min 255 (stood (get q r.0) len seq + length samples))
        (stall_samples (es ∷ samples) r)
      × ((stall_samples (es ∷ samples) r).1
          ≡ highest (stall_samples (es ∷ samples) r).0 (last_of es samples))
unfolding stall_samples
stall_samples_detects q len seq es samples r p h d =
    let (got, worst) = stall_sample-Tracks q len seq es r.0 h.0 in
    let count = stall_count-stood (get q r.0) len seq in
    (
      stall_samples-IsCounted q len seq (stood (get q r.0) len seq) samples (stall_sample r.0 es) p
          (stood-le (get q r.0) len seq) h.1
          (record {
            own = got ∙ ap (λ k. some (len, seq, k)) count;
            worst = omega (arith, worst, count);
          }),
      stall_samples-highest es samples r d,
    )
