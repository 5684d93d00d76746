-- ===== src/Registry/Normal.antt =====
-- A host that normalizeRegistryHost of registry-config.ts has returned is returned again.
use mathlib.Core.Path.{subst}
use tokyo_tester.Base.{
  ◌≡◌, refl, sym, ap, ◌∙◌, Bool, Bool-cases, inl, inr, true, false, not, ◌&&◌, Option, none, some,
  ◌⊎◌, [], ◌∷◌, ◌++◌, any, all, tally, tally-append, ltb, ◌==◌, arith, if◌then◌else◌,
}
use tokyo_tester.Names.{Text, to_lower}
use tokyo_tester.Bundle.{trim, is_empty}
use tokyo_tester.Registry.{
  RegistryError, no_host, has_scheme, has_path, colon, includes_scheme, is_forbidden, is_digit,
  is_hex_or_colon, is_digits, span_hex, closing, bracketed, starts_bracket, cut_port,
  first_is_alphanumeric, is_valid_host, is_valid_port, lower, with_port, from_bracketed, from_plain,
  normalize_registry_host,
}
use tokyo_tester.Registry.Hosts.{
  is_host_unit, is_name_unit, trim-visible, includes_scheme-visible, forbidden-visible, all-append,
  all_of, name_units, first_alphanumeric, lower_idem, valid_host-lower, no_colon, cut_port-plain,
  cut_port-append, tally-no_colon, span_hex-append, span_hex-all,
}

-- What is returned is returned again, and is written with letters, digits, dashes, dots, colons and
-- brackets.
abbrev pub IsFixed : RegistryError ⊎ Text → Type 0
IsFixed (inl error) = Unit
IsFixed (inr host) = (normalize_registry_host host ≡ inr host) × (all is_host_unit host ≡ true)

normalize-visible :
    (h : Text)
    → is_empty h ≡ false
    → all is_host_unit h ≡ true
    → normalize_registry_host h
      ≡ (if starts_bracket h then from_bracketed (bracketed h) else from_plain h)
unfolding normalize_registry_host
normalize-visible h n u =
    rw (trim-visible h u, n, includes_scheme-visible h u, forbidden-visible h u) refl

digits-no_colon : (p : Text) → all is_digit p ≡ true → no_colon p ≡ true
digits-no_colon p h = all_of is_digit (λ c. not (c == colon)) p (λ c d. ground arith) h

digits-visible : (p : Text) → all is_digit p ≡ true → all is_host_unit p ≡ true
digits-visible p h = all_of is_digit is_host_unit p (λ c d. ground arith) h

port_digits : (p : Text) → is_valid_port p ≡ true → all is_digit p ≡ true
unfolding is_valid_port
port_digits p h = ground arith

module _ (h : Text) (valid : is_valid_host h ≡ true) where
  names_visible : all is_host_unit h ≡ true
  names_visible = all_of is_name_unit is_host_unit h (λ c d. ground arith) (name_units h valid)

  names_no_colon : no_colon h ≡ true
  names_no_colon =
      all_of is_name_unit (λ c. not (c == colon)) h (λ c d. ground arith) (name_units h valid)

first_outside :
    (h t : Text)
    → first_is_alphanumeric h ≡ true
    → (is_empty (h ++ t) ≡ false) × (starts_bracket (h ++ t) ≡ false)
first_outside [] t h = cc
first_outside (c ∷ s) t h = (refl, ground arith)

-- A host in lower case is what the plain case returns of it.
plain_name : (h : Text) → is_valid_host h ≡ true → lower h ≡ h → from_plain h ≡ inr h
unfolding from_plain with_port
plain_name h valid low =
    let cut = cut_port-plain h (names_no_colon h valid) in
    rw (cut, tally-no_colon h (names_no_colon h valid), valid) (ap inr low)

plain_name_port :
    (h p : Text)
    → is_valid_host h ≡ true
    → is_valid_port p ≡ true
    → lower h ≡ h
    → from_plain (h ++ colon ∷ p) ≡ inr (h ++ colon ∷ p)
unfolding from_plain with_port
plain_name_port h p valid port low =
    let digits = digits-no_colon p (port_digits p port) in
    let cut = cut_port-append h p digits in
    let one : tally (λ c. c == colon) (h ++ colon ∷ p) ≡ 1 =
      tally-append (λ c. c == colon) h (colon ∷ p)
      ∙ omega (arith, tally-no_colon h (names_no_colon h valid), tally-no_colon p digits) in
    rw (cut, one, valid, port) (ap (λ l. inr (l ++ colon ∷ p)) low)

append_nil : (t : Text) → t ++ [] ≡ t
append_nil [] = refl
append_nil (c ∷ t) = ap (λ l. c ∷ l) (append_nil t)

with_port-IsFixed :
    (host : Text) (port : Option Text) → is_valid_host host ≡ true → IsFixed (with_port host port)
unfolding with_port
with_port-IsFixed host none valid =
    let h = lower host in
    let ok = valid_host-lower host valid in
    let outside = first_outside h [] (first_alphanumeric h ok) in
    let nonempty : is_empty h ≡ false = ap is_empty (sym (append_nil h)) ∙ outside.0 in
    let plain : starts_bracket h ≡ false = ap starts_bracket (sym (append_nil h)) ∙ outside.1 in
    (
      normalize-visible h nonempty (names_visible h ok)
          ∙ rw plain (plain_name h ok (lower_idem host)),
      names_visible h ok,
    )
with_port-IsFixed host (some p) valid = elim (Bool-cases (is_valid_port p)) [
  | inr bad ↦ rw bad tt
  | inl good ↦
      let h = lower host in
      let ok = valid_host-lower host valid in
      let outside = first_outside h (colon ∷ p) (first_alphanumeric h ok) in
      let plain = outside.1 in
      let visible =
        all-append is_host_unit h (colon ∷ p) (names_visible h ok)
          (digits-visible p (port_digits p good)) in
      rw good (
        normalize-visible (h ++ colon ∷ p) outside.0 visible
            ∙ rw plain (plain_name_port h p ok good (lower_idem host)),
        visible,
      )
]

-- Addresses in brackets.
hex-lower : (t : Text) → all is_hex_or_colon t ≡ true → all is_hex_or_colon (lower t) ≡ true
unfolding to_lower
hex-lower [] h = refl
hex-lower (c ∷ t) h = ground (arith, hex-lower t)

is_empty-lower : (t : Text) → is_empty (lower t) ≡ is_empty t
is_empty-lower [] = refl
is_empty-lower (c ∷ t) = refl

lower-append : (t u : Text) → lower (t ++ u) ≡ lower t ++ lower u
lower-append [] u = refl
lower-append (c ∷ t) u = ap (λ l. to_lower c ∷ l) (lower-append t u)

append_assoc : (t u v : Text) → (t ++ u) ++ v ≡ t ++ (u ++ v)
append_assoc [] u v = refl
append_assoc (c ∷ t) u v = ap (λ l. c ∷ l) (append_assoc t u v)

abbrev address : Text → Text
address inside = b'[' ∷ (inside ++ b']' ∷ [])

lower-address : (t : Text) → lower (address t) ≡ address (lower t)
unfolding to_lower
lower-address t = ap (λ l. b'[' ∷ l) (lower-append t (b']' ∷ []))

bracketed-address :
    (t p : Text)
    → is_empty t ≡ false
    → all is_hex_or_colon t ≡ true
    → is_digits p ≡ true
    → bracketed (address t ++ colon ∷ p) ≡ some (address t, p)
unfolding bracketed
bracketed-address t p n h d =
    let joined : (t ++ b']' ∷ []) ++ colon ∷ p ≡ t ++ b']' ∷ colon ∷ p =
      append_assoc t (b']' ∷ []) (colon ∷ p) in
    let span = ap span_hex joined ∙ span_hex-append t (colon ∷ p) h in rw (span, n, d) refl

address_visible : (t : Text) → all is_hex_or_colon t ≡ true → all is_host_unit (address t) ≡ true
address_visible t h =
    all-append is_host_unit t (b']' ∷ [])
      (all_of is_hex_or_colon is_host_unit t (λ c d. ground arith) h) refl

module _ (t p : Text) (n : is_empty t ≡ false) (h : all is_hex_or_colon t ≡ true)
    (d : is_digits p ≡ true) where
  lowered_address : is_valid_port p ≡ true → IsFixed (inr (address (lower t) ++ colon ∷ p))
  unfolding from_bracketed with_port
  lowered_address good =
      let hex = hex-lower t h in
      let visible =
        all-append is_host_unit (address (lower t)) (colon ∷ p) (address_visible (lower t) hex)
          (digits-visible p (port_digits p good)) in
      let low : lower (address (lower t)) ≡ address (lower t) =
        lower-address (lower t) ∙ ap address (lower_idem t) in
      (
        normalize-visible (address (lower t) ++ colon ∷ p) refl visible
            ∙ ap from_bracketed (bracketed-address (lower t) p (is_empty-lower t ∙ n) hex d)
            ∙ rw good (ap (λ l. inr (l ++ colon ∷ p)) low),
        visible,
      )

  address-IsFixed : IsFixed (with_port (address t) (some p))
  unfolding with_port
  address-IsFixed = elim (Bool-cases (is_valid_port p)) [
    | inr bad ↦ rw bad tt
    | inl good ↦
        rw good (
          subst (λ l. IsFixed (inr (l ++ colon ∷ p))) (sym (lower-address t))
            (lowered_address good))
  ]

closing-IsFixed :
    (inside rest : Text)
    → all is_hex_or_colon inside ≡ true
    → IsFixed (from_bracketed (closing inside rest))
unfolding from_bracketed
closing-IsFixed inside [] h = tt
closing-IsFixed inside (c ∷ []) h = tt
closing-IsFixed inside (c ∷ d ∷ p) h =
    elim (Bool-cases ((c == b']' && d == colon) && (not (is_empty inside) && is_digits p))) [
      | inr other ↦ rw other tt
      | inl closed ↦ rw closed (address-IsFixed inside p (ground arith) h (ground arith))
    ]

bracketed-IsFixed : (t : Text) → IsFixed (from_bracketed (bracketed t))
unfolding bracketed from_bracketed
bracketed-IsFixed [] = tt
bracketed-IsFixed (c ∷ t) = elim (Bool-cases (c == b'[')) [
  | inr other ↦ rw other tt
  | inl open_bracket ↦
      rw open_bracket (closing-IsFixed (span_hex t).0 (span_hex t).1 (span_hex-all t))
]

from_plain-IsFixed : (t : Text) → IsFixed (from_plain t)
unfolding from_plain
from_plain-IsFixed t = elim (Bool-cases (ltb 1 (tally (λ c. c == colon) t))) [
  | inl many ↦ rw many tt
  | inr few ↦ elim (Bool-cases (is_valid_host (cut_port t).0)) [
    | inr bad ↦ rw (few, bad) tt
    | inl good ↦ rw (few, good) (with_port-IsFixed (cut_port t).0 (cut_port t).1 good)
  ]
]

either-IsFixed :
    (b : Bool) (x y : RegistryError ⊎ Text) → IsFixed x → IsFixed y → IsFixed (if b then x else y)
either-IsFixed true x y h k = h
either-IsFixed false x y h k = k

-- Where a text is accepted as the host of a registry, what is returned is accepted too, and is returned
-- unchanged; it is written with letters, digits, dashes, dots, colons and brackets only.
pub normalize_registry_host-IsFixed : (value : Text) → IsFixed (normalize_registry_host value)
unfolding normalize_registry_host
normalize_registry_host-IsFixed value =
    let input = trim value in
    let hosted =
      if starts_bracket input then from_bracketed (bracketed input) else from_plain input in
    let pathless = if any is_forbidden input then inl has_path else hosted in
    let bare = if includes_scheme input then inl has_scheme else pathless in
    either-IsFixed (is_empty input) (inl no_host) bare tt (
      either-IsFixed (includes_scheme input) (inl has_scheme) pathless tt (
        either-IsFixed (any is_forbidden input) (inl has_path) hosted tt (
          either-IsFixed (starts_bracket input) (from_bracketed (bracketed input))
            (from_plain input) (bracketed-IsFixed input) (from_plain-IsFixed input))))
