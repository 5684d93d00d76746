-- ===== src/Registry/Hosts.antt =====
-- Texts of hosts and ports, and what the scanners of registry-config.ts make of them.
use tokyo_tester.Base.{
  ℕ, ◌≡◌, refl, ap, ◌∙◌, Bool, Bool-cases, inl, inr, true, false, not, ◌&&◌, ◌||◌, none, some, List,
  [], ◌∷◌, ◌++◌, map, any, all, length, tally, ◌==◌, arith,
}
use tokyo_tester.Names.{Text, to_lower}
use tokyo_tester.Graph.Texts.{text_eq, text_eq_iff}
use tokyo_tester.Scenario.{is_space}
use tokyo_tester.Bundle.{codes, trim, trim_start, trim_end}
use tokyo_tester.Registry.{
  colon, includes_scheme, is_forbidden, is_alphanumeric, is_hex_or_colon, span_hex, cut_port,
  is_label_unit, first_is_alphanumeric, last_is_alphanumeric, is_label, onto_label, labels,
  is_valid_host, lower,
}

-- What a host with its port is written with.
abbrev pub is_host_unit : ℕ → Bool
is_host_unit c = is_label_unit c || (c == b'.' || (c == colon || (c == b'[' || c == b']')))

host_unit-visible : (c : ℕ) → is_host_unit c ≡ true → is_space c ≡ false
unfolding is_space
host_unit-visible c h = ground arith

trim_start-visible : (t : Text) → all is_host_unit t ≡ true → trim_start t ≡ t
unfolding trim_start
trim_start-visible [] h = refl
trim_start-visible (c ∷ t) h = ground (arith, host_unit-visible c)

trim_end-visible : (t : Text) → all is_host_unit t ≡ true → trim_end t ≡ t
unfolding trim_end
trim_end-visible [] h = refl
trim_end-visible (c ∷ t) h = ground (arith, host_unit-visible c, trim_end-visible t)

pub trim-visible : (t : Text) → all is_host_unit t ≡ true → trim t ≡ t
unfolding trim
trim-visible t h = ap trim_end (trim_start-visible t h) ∙ trim_end-visible t h

pub includes_scheme-visible : (t : Text) → all is_host_unit t ≡ true → includes_scheme t ≡ false
unfolding includes_scheme
includes_scheme-visible [] h = refl
includes_scheme-visible (c ∷ []) h = ground arith
includes_scheme-visible (c ∷ d ∷ t) h =
    let later = includes_scheme-visible (d ∷ t) (ground arith) in ground (arith, later)

pub forbidden-visible : (t : Text) → all is_host_unit t ≡ true → any is_forbidden t ≡ false
forbidden-visible [] h = refl
forbidden-visible (c ∷ t) h = ground (arith, forbidden-visible t)

pub all-append :
    (p : ℕ → Bool) (t u : Text) → all p t ≡ true → all p u ≡ true → all p (t ++ u) ≡ true
all-append p [] u h k = k
all-append p (c ∷ t) u h k = ground (arith, all-append p t u)

pub all_of :
    (p q : ℕ → Bool) (t : Text)
    → ((c : ℕ) → p c ≡ true → q c ≡ true)
    → all p t ≡ true
    → all q t ≡ true
all_of p q [] f h = refl
all_of p q (c ∷ t) f h = ground (arith, f c, all_of p q t f)

-- The units of labels and dots.
abbrev pub is_name_unit : ℕ → Bool
is_name_unit c = is_label_unit c || c == b'.'

all-onto_label :
    (p : ℕ → Bool) (c : ℕ) (ls : List Text)
    → all (λ l. all p l) (onto_label c ls) ≡ (p c && all (λ l. all p l) ls)
all-onto_label p c [] = ground arith
all-onto_label p c (l ∷ ls) = ground arith

units-labels :
    (t : Text) → all (λ l. all is_label_unit l) (labels t) ≡ true → all is_name_unit t ≡ true
unfolding labels
units-labels [] h = refl
units-labels (c ∷ t) h = ground (arith, all-onto_label is_label_unit c (labels t), units-labels t)

units_of_labels :
    (ls : List Text) → all is_label ls ≡ true → all (λ l. all is_label_unit l) ls ≡ true
unfolding is_label
units_of_labels [] h = refl
units_of_labels (l ∷ ls) h = ground (arith, units_of_labels ls)

localhost_label : all is_label (labels (codes "localhost")) ≡ true
unfolding labels is_label
localhost_label = refl

-- A valid host is labels, whether it is localhost or not.
pub labels-valid : (t : Text) → is_valid_host t ≡ true → all is_label (labels t) ≡ true
unfolding is_valid_host
labels-valid t h = elim (Bool-cases (text_eq t (codes "localhost"))) [
  | inl same ↦
      ap (λ u. all is_label (labels u)) ((text_eq_iff t (codes "localhost")).0 same)
      ∙ localhost_label
  | inr other ↦ ground arith
]

pub name_units : (t : Text) → is_valid_host t ≡ true → all is_name_unit t ≡ true
name_units t h = units-labels t (units_of_labels (labels t) (labels-valid t h))

first_of :
    (c : ℕ) (ls : List Text) → all is_label (onto_label c ls) ≡ true → is_alphanumeric c ≡ true
unfolding is_label
first_of c [] h = ground arith
first_of c (l ∷ ls) h = ground arith

false_ne : false ≡ true → ⊥
false_ne h = cc

-- It begins with a letter or a digit.
pub first_alphanumeric : (t : Text) → is_valid_host t ≡ true → first_is_alphanumeric t ≡ true
unfolding labels is_label
first_alphanumeric [] h = absurd (false_ne (labels-valid [] h))
first_alphanumeric (c ∷ t) h =
    let valid = labels-valid (c ∷ t) h in ground (arith, valid, first_of c (labels t))

-- Lower case.
pub lower_idem : (t : Text) → lower (lower t) ≡ lower t
unfolding to_lower
lower_idem [] = refl
lower_idem (c ∷ t) = ground (arith, lower_idem t)

label_unit-lower : (c : ℕ) → is_label_unit (to_lower c) ≡ is_label_unit c
unfolding to_lower
label_unit-lower c = ground arith

alphanumeric-lower : (c : ℕ) → is_alphanumeric (to_lower c) ≡ is_alphanumeric c
unfolding to_lower
alphanumeric-lower c = ground arith

label_units-lower : (t : Text) → all is_label_unit (lower t) ≡ all is_label_unit t
label_units-lower [] = refl
label_units-lower (c ∷ t) = ground (arith, label_unit-lower c, label_units-lower t)

last-lower : (t : Text) → last_is_alphanumeric (lower t) ≡ last_is_alphanumeric t
last-lower [] = refl
last-lower (c ∷ []) = alphanumeric-lower c
last-lower (c ∷ d ∷ t) = last-lower (d ∷ t)

first-lower : (t : Text) → first_is_alphanumeric (lower t) ≡ first_is_alphanumeric t
first-lower [] = refl
first-lower (c ∷ t) = alphanumeric-lower c

length-lower : (t : Text) → length (lower t) ≡ length t
length-lower [] = refl
length-lower (c ∷ t) = omega (arith, length-lower t)

label-lower : (t : Text) → is_label (lower t) ≡ is_label t
unfolding is_label
label-lower t = ground (arith, length-lower t, label_units-lower t, first-lower t, last-lower t)

all_labels-lower : (ls : List Text) → all is_label (map lower ls) ≡ all is_label ls
all_labels-lower [] = refl
all_labels-lower (l ∷ ls) = ground (arith, label-lower l, all_labels-lower ls)

map-onto_label :
    (c : ℕ) (ls : List Text) → map lower (onto_label c ls) ≡ onto_label (to_lower c) (map lower ls)
map-onto_label c [] = refl
map-onto_label c (l ∷ ls) = refl

dot-lower : (c : ℕ) → (to_lower c == b'.') ≡ (c == b'.')
unfolding to_lower
dot-lower c = ground arith

labels-lower : (t : Text) → labels (lower t) ≡ map lower (labels t)
unfolding labels
labels-lower [] = refl
labels-lower (c ∷ t) = ground (arith, dot-lower c, labels-lower t, map-onto_label c (labels t))

pub valid_host-lower : (t : Text) → is_valid_host t ≡ true → is_valid_host (lower t) ≡ true
unfolding is_valid_host
valid_host-lower t h =
    let same : all is_label (labels (lower t)) ≡ true =
      ap (all is_label) (labels-lower t) ∙ all_labels-lower (labels t) ∙ labels-valid t h in
    ground (arith, same)

-- The scanners on a text that is put together.
abbrev pub no_colon : Text → Bool
no_colon t = all (λ c. not (c == colon)) t

pub cut_port-plain : (t : Text) → no_colon t ≡ true → cut_port t ≡ (t, none)
unfolding cut_port
cut_port-plain [] h = refl
cut_port-plain (c ∷ t) h =
    let rest : cut_port t ≡ (t, none) = cut_port-plain t (ground arith) in
    let other : c == colon ≡ false = ground arith in rw (rest, other) refl

pub cut_port-append : (t p : Text) → no_colon p ≡ true → cut_port (t ++ colon ∷ p) ≡ (t, some p)
unfolding cut_port
cut_port-append [] p h = let rest = cut_port-plain p h in rw rest refl
cut_port-append (c ∷ t) p h = let rest = cut_port-append t p h in rw rest refl

pub tally-no_colon : (t : Text) → no_colon t ≡ true → tally (λ c. c == colon) t ≡ 0
tally-no_colon [] h = refl
tally-no_colon (c ∷ t) h = ground (arith, tally-no_colon t)

pub span_hex-append :
    (t u : Text) → all is_hex_or_colon t ≡ true → span_hex (t ++ b']' ∷ u) ≡ (t, b']' ∷ u)
unfolding span_hex
span_hex-append [] u h = refl
span_hex-append (c ∷ t) u h =
    let rest : span_hex (t ++ b']' ∷ u) ≡ (t, b']' ∷ u) = span_hex-append t u (ground arith) in
    let here : is_hex_or_colon c ≡ true = ground arith in rw (here, rest) refl

pub span_hex-all : (t : Text) → all is_hex_or_colon (span_hex t).0 ≡ true
unfolding span_hex
span_hex-all [] = refl
span_hex-all (c ∷ t) = elim (Bool-cases (is_hex_or_colon c)) [
  | inl hex ↦ rw (hex, hex) (span_hex-all t)
  | inr other ↦ rw other refl
]
