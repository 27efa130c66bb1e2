-- ===== src/Qos/Journals/Names.antt =====
-- The names of the journal's files: each is that of one interface.
use nfqttl.Base.{
  ◌≡◌, refl, sym, ap, ◌∙◌, arith, ◌==◌, ==_iff, ==_refl, Bool-cases, inl, inr, [], ◌∷◌, ◌++◌,
  Option, none, some,
}
use nfqttl.Base.Text.{Text}
use nfqttl.Qos.Journals.{
  strip_prefix, reversed, strip_suffix, journal_prefix, journal_suffix, iface_of, journal_name,
}
use mathlib.Core.List.{reverse, reverse-append, reverse-reverse}

strip_prefix-append : (p t : Text) → strip_prefix p (p ++ t) ≡ some t
unfolding strip_prefix
strip_prefix-append [] t = refl
strip_prefix-append (c ∷ p) t = rw (==_refl c) (strip_prefix-append p t)

some_same : (t u : Text) → some t ≡ some u → t ≡ u
some_same t u h = ground arith

strip_prefix-eq : (p t u : Text) → strip_prefix p t ≡ some u → t ≡ p ++ u
unfolding strip_prefix
strip_prefix-eq [] t u h = some_same t u h
strip_prefix-eq (c ∷ p) [] u h = ground arith
strip_prefix-eq (c ∷ p) (d ∷ t) u h = elim (Bool-cases (c == d)) [
  | inl same ↦
      let e : c ≡ d = (==_iff c d).0 same in rw (strip_prefix-eq p t u (ground arith), e) refl
  | inr other ↦ ground arith
]

pub iface_of-journal_name : (iface : Text) → iface_of (journal_name iface) ≡ some iface
iface_of-journal_name iface =
    rw
      (
        strip_prefix-append journal_prefix (iface ++ journal_suffix),
        reverse-append iface journal_suffix,
        strip_prefix-append (reverse journal_suffix) (reverse iface),
        reverse-reverse iface,
      )
      refl

-- A file that is taken for a journal has the name of its interface's journal.
pub journal_name-iface_of :
    (name iface : Text) → iface_of name ≡ some iface → name ≡ journal_name iface
journal_name-iface_of name iface h = at_prefix (strip_prefix journal_prefix name) refl h
  where
    at_suffix :
        (t : Text) (o : Option Text)
        → strip_prefix (reverse journal_suffix) (reverse t) ≡ o
        → reversed o ≡ some iface
        → t ≡ iface ++ journal_suffix
    at_suffix t none e h = ground arith
    at_suffix t (some u) e h =
        sym (reverse-reverse t)
        ∙ (ap reverse (strip_prefix-eq (reverse journal_suffix) (reverse t) u e)
            ∙ (reverse-append (reverse journal_suffix) u
                ∙ ap (λ v. v ++ journal_suffix) (some_same (reverse u) iface h)))

    at_prefix :
        (o : Option Text)
        → strip_prefix journal_prefix name ≡ o
        → strip_suffix journal_suffix o ≡ some iface
        → name ≡ journal_name iface
    at_prefix none e h = ground arith
    at_prefix (some t) e h =
        strip_prefix-eq journal_prefix name t e
        ∙ ap (λ v. journal_prefix ++ v)
            (at_suffix t (strip_prefix (reverse journal_suffix) (reverse t)) refl h)
