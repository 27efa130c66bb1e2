-- ===== src/Daemon/Tally.antt =====
-- What the statistics of the queues add up to.
use nfqttl.Base.{
  ℕ, ◌+◌, ◌-◌, ◌%◌, ◌^◌, ◌≤◌, ◌≡◌, refl, sym, ◌∙◌, subst, inl, inr, arith, Bool, true, false, ◌&&◌,
  leb, if◌then◌else◌, Option-cases, List, [], ◌∷◌, ◌++◌, map, length, get_elem?, Option, none, some,
  append-nil, append_assoc, ◌<◌,
}
use nfqttl.Base.Text.{Text, split_whitespace, lines, parse_uint}
use nfqttl.Firewall.{queue_base}
use nfqttl.Daemon.{
  Entry, QStats, u64_of, no_stats, own_queue, count_row, add_entry, add_row, add_rows, queue_stats,
}

-- A row of the file: the queue, how many packets wait, how many the kernel and the program's side
-- dropped, and the number of the last packet.
pub record Row : Type 0 where
  pub queue : ℕ
  pub waiting : ℕ
  pub kernel_drops : ℕ
  pub user_drops : ℕ
  pub last_packet : ℕ

abbrev pub numbered : Option ℕ → ℕ → List Row → Row → List Row
numbered none last rest r = rest
numbered (some q) last rest r =
    if leb queue_base q && leb q last then record r { queue = q } ∷ rest else rest

-- The columns are the queue, its owner, the length, the mode, the range, the two counts of drops and
-- the last packet, and there may be more. A column that is no `u64` is 0.
unfoldable pub rows_from : ℕ → List Text → List Row → List Row
rows_from last (queue ∷ owner ∷ len ∷ mode ∷ range ∷ kd ∷ ud ∷ seq ∷ more) rest =
    numbered (parse_uint (2 ^ 16) queue) last rest (record {
      queue = 0;
      waiting = u64_of (some len);
      kernel_drops = u64_of (some kd);
      user_drops = u64_of (some ud);
      last_packet = u64_of (some seq);
    })
rows_from last _ rest = rest

-- The rows of the program's queues.
unfoldable pub own_rows : ℕ → List Text → List Row
own_rows last [] = []
own_rows last (l ∷ ls) = rows_from last (split_whitespace l) (own_rows last ls)

abbrev pub rows_of : Option Text → ℕ → List Row
rows_of none last = []
rows_of (some text) last = own_rows last (lines text)

abbrev pub entry : Row → Entry
entry r = (r.queue, r.waiting, r.last_packet)

unfoldable pub sum_of : (Row → ℕ) → List Row → ℕ
sum_of f [] = 0
sum_of f (r ∷ rs) = f r + sum_of f rs

-- `r` with the rows after what it has.
pub record IsTally (before : QStats) (rs : List Row) (r : QStats) : Type 0 where
  pub entries_is : r.entries ≡ before.entries ++ map entry rs
  pub rows_is : r.rows ≡ (before.rows + length rs) % 2 ^ 8
  pub len_is : r.len ≡ (before.len + sum_of (λ (x : Row). x.waiting) rs) % 2 ^ 64
  pub kdrops_is : r.kdrops ≡ (before.kdrops + sum_of (λ (x : Row). x.kernel_drops) rs) % 2 ^ 64
  pub udrops_is : r.udrops ≡ (before.udrops + sum_of (λ (x : Row). x.user_drops) rs) % 2 ^ 64

own_queue_short :
    (last : ℕ) (o : Option Text) (words : ℕ) → words < 8 → own_queue last o words ≡ none
unfolding own_queue
own_queue_short last none words h = refl
own_queue_short last (some t) words h = elim (Option-cases (parse_uint (2 ^ 16) t)) [
  | inl e ↦ ground (arith, e)
  | inr (n, e) ↦ ground (arith, e)
]

own_queue_long :
    (last : ℕ) (t : Text) (words : ℕ)
    → 8 ≤ words
    → own_queue last (some t) words ≡ elim (parse_uint (2 ^ 16) t) [
      | none ↦ none
      | some q ↦ if leb queue_base q && leb q last then some q else none
    ]
unfolding own_queue
own_queue_long last t words h = elim (Option-cases (parse_uint (2 ^ 16) t)) [
  | inl e ↦ ground (arith, e)
  | inr (n, e) ↦ ground (arith, e)
]

-- A row that is counted comes before the rows that follow.
count_row-IsTally :
    (r z : QStats) (q len kd ud seq : ℕ) (rs : List Row)
    → IsTally (count_row r q len kd ud seq) rs z
    → IsTally r
        (record { queue = q; waiting = len; kernel_drops = kd; user_drops = ud; last_packet = seq }
          ∷ rs)
        z
unfolding sum_of
count_row-IsTally r z q len kd ud seq rs t = record {
  entries_is = t.entries_is ∙ append_assoc r.entries ((q, len, seq) ∷ []) (map entry rs);
  rows_is = omega (arith, t.rows_is);
  len_is = omega (arith, t.len_is);
  kdrops_is = omega (arith, t.kdrops_is);
  udrops_is = omega (arith, t.udrops_is);
}

too_short-IsTally :
    (last : ℕ) (r z : QStats) (w : List Text) (rs : List Row)
    → length w < 8
    → IsTally (add_entry r w (own_queue last (get_elem? w 0) (length w))) rs z
    → IsTally r rs z
too_short-IsTally last r z w rs h t =
    subst (λ o. IsTally (add_entry r w o) rs z) (own_queue_short last (get_elem? w 0) (length w) h)
      t

add_entry-IsTally :
    (last : ℕ) (r z : QStats) (w : List Text) (rs : List Row)
    → IsTally (add_entry r w (own_queue last (get_elem? w 0) (length w))) rs z
    → IsTally r (rows_from last w rs) z
unfolding rows_from
add_entry-IsTally last r z [] rs t = too_short-IsTally last r z [] rs (omega arith) t
add_entry-IsTally last r z (a ∷ []) rs t = too_short-IsTally last r z (a ∷ []) rs (omega arith) t
add_entry-IsTally last r z (a ∷ b ∷ []) rs t =
    too_short-IsTally last r z (a ∷ b ∷ []) rs (omega arith) t
add_entry-IsTally last r z (a ∷ b ∷ c ∷ []) rs t =
    too_short-IsTally last r z (a ∷ b ∷ c ∷ []) rs (omega arith) t
add_entry-IsTally last r z (a ∷ b ∷ c ∷ d ∷ []) rs t =
    too_short-IsTally last r z (a ∷ b ∷ c ∷ d ∷ []) rs (omega arith) t
add_entry-IsTally last r z (a ∷ b ∷ c ∷ d ∷ e ∷ []) rs t =
    too_short-IsTally last r z (a ∷ b ∷ c ∷ d ∷ e ∷ []) rs (omega arith) t
add_entry-IsTally last r z (a ∷ b ∷ c ∷ d ∷ e ∷ f ∷ []) rs t =
    too_short-IsTally last r z (a ∷ b ∷ c ∷ d ∷ e ∷ f ∷ []) rs (omega arith) t
add_entry-IsTally last r z (a ∷ b ∷ c ∷ d ∷ e ∷ f ∷ g ∷ []) rs t =
    too_short-IsTally last r z (a ∷ b ∷ c ∷ d ∷ e ∷ f ∷ g ∷ []) rs (omega arith) t
add_entry-IsTally last r z (a ∷ b ∷ c ∷ d ∷ e ∷ f ∷ g ∷ h ∷ more) rs t =
    counted (parse_uint (2 ^ 16) a) (
      subst (λ o. IsTally (add_entry r (a ∷ b ∷ c ∷ d ∷ e ∷ f ∷ g ∷ h ∷ more) o) rs z)
        (own_queue_long last a (length (a ∷ b ∷ c ∷ d ∷ e ∷ f ∷ g ∷ h ∷ more)) (omega arith)) t)
  where
    row : Row
    row = record {
      queue = 0;
      waiting = u64_of (some c);
      kernel_drops = u64_of (some f);
      user_drops = u64_of (some g);
      last_packet = u64_of (some h);
    }

    ranged :
        (x : Bool) (q : ℕ)
        → IsTally
            (add_entry r (a ∷ b ∷ c ∷ d ∷ e ∷ f ∷ g ∷ h ∷ more) (if x then some q else none))
            rs
            z
        → IsTally r (if x then record row { queue = q } ∷ rs else rs) z
    ranged true q t = count_row-IsTally r z q _ _ _ _ rs t
    ranged false q t = t

    counted :
        (o : Option ℕ)
        → IsTally
            (add_entry r (a ∷ b ∷ c ∷ d ∷ e ∷ f ∷ g ∷ h ∷ more) (elim o [
              | none ↦ none
              | some q ↦ if leb queue_base q && leb q last then some q else none
            ]))
            rs
            z
        → IsTally r (numbered o last rs row) z
    counted none t = t
    counted (some q) t = ranged (leb queue_base q && leb q last) q t

-- The counts fit their types.
abbrev Fits : QStats → Type 0
Fits r = (r.rows < 2 ^ 8) × (r.len < 2 ^ 64) × (r.kdrops < 2 ^ 64) × (r.udrops < 2 ^ 64)

add_entry-Fits : (r : QStats) (w : List Text) (o : Option ℕ) → Fits r → Fits (add_entry r w o)
add_entry-Fits r w none h = h
add_entry-Fits r w (some q) h = (omega arith, omega arith, omega arith, omega arith)

add_rows-IsTally :
    (last : ℕ) (ls : List Text) (r : QStats)
    → Fits r
    → IsTally r (own_rows last ls) (add_rows last r ls)
unfolding add_rows add_row own_rows sum_of
add_rows-IsTally last [] r h = record {
  entries_is = sym (append-nil r.entries);
  rows_is = omega (arith, h);
  len_is = omega (arith, h);
  kdrops_is = omega (arith, h);
  udrops_is = omega (arith, h);
}
add_rows-IsTally last (l ∷ ls) r h =
    let w = split_whitespace l in
    add_entry-IsTally last r _ w (own_rows last ls) (
      add_rows-IsTally last ls (add_row last r l)
        (add_entry-Fits r w (own_queue last (get_elem? w 0) (length w)) h))

-- Whatever the statistics file holds, or if it cannot be read: the statistics are those of its rows,
-- of at least 8 words, of the queues 6464 to 6463 + `count`, in their order. An entry is the queue,
-- the third word as its length and the eighth as its last packet; `rows` is the number of the rows as
-- a `u8`; and `len`, `kdrops` and `udrops` are the sums of the third, sixth and seventh words as
-- `u64`s, where a word that is no `u64` is 0.
pub queue_stats-IsTally :
    (file : Option Text) (count : ℕ)
    → IsTally no_stats (rows_of file (queue_base + count - 1)) (queue_stats file count)
unfolding queue_stats sum_of
queue_stats-IsTally none count = record {
  entries_is = refl;
  rows_is = refl;
  len_is = refl;
  kdrops_is = refl;
  udrops_is = refl;
}
queue_stats-IsTally (some text) count =
    add_rows-IsTally (queue_base + count - 1) (lines text) no_stats
      (omega arith, omega arith, omega arith, omega arith)
