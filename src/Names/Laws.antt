-- ===== src/Names/Laws.antt =====
-- What the names of `sanitizeName` in scenario-translator.ts look like.
use tokyo_tester.Base.{
  ℕ, ◌≡◌, refl, ap, inl, inr, Bool, true, false, ◌&&◌, [], ◌∷◌, map, arith, All, Bool-cases, ◌==◌,
}
use tokyo_tester.Names.{
  Text, underscore, to_lower, is_plain, replace_unit, starts_low, collapse, strip_front, strip_back,
  sanitize_name,
}

-- Only lower case letters, digits, dashes and underscores.
abbrev pub IsPlain : Text → Type 0
IsPlain t = All (λ c. is_plain c ≡ true) t

-- No two underscores in a row.
abbrev pub IsSingle : Text → Type 0
IsSingle [] = Unit
IsSingle (c ∷ t) = ((c == underscore && starts_low t) ≡ false) × IsSingle t

abbrev pub ends_low : Text → Bool
ends_low [] = false
ends_low (c ∷ []) = c == underscore
ends_low (c ∷ d ∷ t) = ends_low (d ∷ t)

pub record IsClean (t : Text) : Type 0 where
  pub plain : IsPlain t
  pub single : IsSingle t
  pub front : starts_low t ≡ false
  pub back : ends_low t ≡ false

replace_unit-plain : (c : ℕ) → is_plain (replace_unit c) ≡ true
unfolding replace_unit
replace_unit-plain c = ground arith

map-IsPlain : (t : Text) → IsPlain (map (λ c. replace_unit (to_lower c)) t)
map-IsPlain [] = tt
map-IsPlain (c ∷ t) = (replace_unit-plain (to_lower c), map-IsPlain t)

collapse-IsPlain : (t : Text) → IsPlain t → IsPlain (collapse t)
unfolding collapse
collapse-IsPlain [] h = tt
collapse-IsPlain (c ∷ t) (p, h) = elim (Bool-cases (c == underscore && starts_low (collapse t))) [
  | inl e ↦ rw e (collapse-IsPlain t h)
  | inr e ↦ rw e (p, collapse-IsPlain t h)
]

collapse-IsSingle : (t : Text) → IsSingle (collapse t)
unfolding collapse
collapse-IsSingle [] = tt
collapse-IsSingle (c ∷ t) = elim (Bool-cases (c == underscore && starts_low (collapse t))) [
  | inl e ↦ rw e (collapse-IsSingle t)
  | inr e ↦ rw e (e, collapse-IsSingle t)
]

strip_front-IsPlain : (t : Text) → IsPlain t → IsPlain (strip_front t)
unfolding strip_front
strip_front-IsPlain [] h = tt
strip_front-IsPlain (c ∷ t) (p, h) = elim (Bool-cases (c == underscore)) [
  | inl e ↦ rw e h
  | inr e ↦ rw e (p, h)
]

strip_front-IsSingle : (t : Text) → IsSingle t → IsSingle (strip_front t)
unfolding strip_front
strip_front-IsSingle [] h = tt
strip_front-IsSingle (c ∷ t) (p, h) = elim (Bool-cases (c == underscore)) [
  | inl e ↦ rw e h
  | inr e ↦ rw e (p, h)
]

starts_low-strip_front : (t : Text) → IsSingle t → starts_low (strip_front t) ≡ false
unfolding strip_front
starts_low-strip_front [] h = refl
starts_low-strip_front (c ∷ t) (p, h) = ground arith

-- Taking an underscore off the end keeps the rest as it is.
strip_back-IsPlain : (t : Text) → IsPlain t → IsPlain (strip_back t)
unfolding strip_back
strip_back-IsPlain [] h = tt
strip_back-IsPlain (c ∷ []) (p, h) = elim (Bool-cases (c == underscore)) [
  | inl e ↦ rw e tt
  | inr e ↦ rw e (p, tt)
]
strip_back-IsPlain (c ∷ d ∷ t) (p, h) = (p, strip_back-IsPlain (d ∷ t) h)

starts_low-strip_back : (t : Text) → starts_low t ≡ false → starts_low (strip_back t) ≡ false
unfolding strip_back
starts_low-strip_back [] h = refl
starts_low-strip_back (c ∷ []) h = rw (h, h)
starts_low-strip_back (c ∷ d ∷ t) h = h

single_back :
    (c d : ℕ) (t : Text)
    → (c == underscore && starts_low (d ∷ t)) ≡ false
    → (c == underscore && starts_low (strip_back (d ∷ t))) ≡ false
unfolding strip_back
single_back c d [] h = ground arith
single_back c d (e ∷ t) h = h

strip_back-IsSingle : (t : Text) → IsSingle t → IsSingle (strip_back t)
unfolding strip_back
strip_back-IsSingle [] h = tt
strip_back-IsSingle (c ∷ []) (p, h) = elim (Bool-cases (c == underscore)) [
  | inl e ↦ rw e tt
  | inr e ↦ rw e (p, tt)
]
strip_back-IsSingle (c ∷ d ∷ t) (p, h) = (single_back c d t p, strip_back-IsSingle (d ∷ t) h)

ends_low-strip_back : (t : Text) → IsSingle t → ends_low (strip_back t) ≡ false
unfolding strip_back
ends_low-strip_back [] h = refl
ends_low-strip_back (c ∷ []) h = ground arith
ends_low-strip_back (c ∷ d ∷ []) (p, h) = ground arith
ends_low-strip_back (c ∷ d ∷ e ∷ t) (p, h) = ends_low-strip_back (d ∷ e ∷ t) h

-- A name has lower case letters, digits, dashes and single underscores only, and no underscore at
-- either end.
pub sanitize_name-IsClean : (label : Text) → IsClean (sanitize_name label)
unfolding sanitize_name
sanitize_name-IsClean label =
    let units = map (λ c. replace_unit (to_lower c)) label in
    let short = collapse units in
    let single = collapse-IsSingle units in
    record {
      plain =
          strip_back-IsPlain (strip_front short)
            (strip_front-IsPlain short (collapse-IsPlain units (map-IsPlain label)));
      single = strip_back-IsSingle (strip_front short) (strip_front-IsSingle short single);
      front = starts_low-strip_back (strip_front short) (starts_low-strip_front short single);
      back = ends_low-strip_back (strip_front short) (strip_front-IsSingle short single);
    }

keep_unit : (c : ℕ) → is_plain c ≡ true → replace_unit (to_lower c) ≡ c
unfolding replace_unit to_lower
keep_unit c h = ground arith

keep_units : (t : Text) → IsPlain t → map (λ c. replace_unit (to_lower c)) t ≡ t
keep_units [] h = refl
keep_units (c ∷ t) (p, h) = cc (keep_unit c p, keep_units t h)

collapse_single : (t : Text) → IsSingle t → collapse t ≡ t
unfolding collapse
collapse_single [] h = refl
collapse_single (c ∷ t) (p, h) = rw (collapse_single t h, p)

strip_front_clean : (t : Text) → starts_low t ≡ false → strip_front t ≡ t
unfolding strip_front
strip_front_clean [] h = refl
strip_front_clean (c ∷ t) h = rw h

strip_back_clean : (t : Text) → ends_low t ≡ false → strip_back t ≡ t
unfolding strip_back
strip_back_clean [] h = refl
strip_back_clean (c ∷ []) h = rw h
strip_back_clean (c ∷ d ∷ t) h = ap (◌∷◌ c) (strip_back_clean (d ∷ t) h)

sanitize_name_clean : (t : Text) → IsClean t → sanitize_name t ≡ t
unfolding sanitize_name
sanitize_name_clean t h =
    rw (keep_units t h.plain, collapse_single t h.single, strip_front_clean t h.front)
      (strip_back_clean t h.back)

-- A name is its own name.
pub sanitize_name_idem : (label : Text) → sanitize_name (sanitize_name label) ≡ sanitize_name label
sanitize_name_idem label = sanitize_name_clean (sanitize_name label) (sanitize_name-IsClean label)
