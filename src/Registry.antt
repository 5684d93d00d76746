-- ===== src/Registry.antt =====
-- ui-v2/src/modules/workflow/lib/registry-config.ts: the host of a registry, the image that is resolved
-- from it, and the form. A call that throws returns the error. Letters are those of ASCII.
pub mod Hosts
pub mod Normal
pub mod Images
pub mod Forms
mod Tests
use tokyo_tester.Base.{
  ℕ, ◌+◌, ◌*◌, ◌-◌, Bool, true, false, not, ◌&&◌, ◌||◌, Option, none, some, ◌⊎◌, inl, inr, List, [],
  ◌∷◌, ◌++◌, map, any, all, length, tally, ltb, leb, ◌==◌, if◌then◌else◌,
}
use tokyo_tester.Names.{Text, to_lower}
use tokyo_tester.Graph.Texts.{text_eq}
use tokyo_tester.Bundle.{codes, trim, is_empty}

pub data RegistryError : Type 0 where
  no_host has_scheme has_path bad_bracketed unbracketed bad_host bad_port : RegistryError
  no_image image_has_scheme : RegistryError
  other_host : Text → Text → RegistryError

abbrev pub colon : ℕ
colon = b':'

abbrev pub slash : ℕ
slash = b'/'

abbrev pub starts_with : Text → Text → Bool
starts_with [] t = true
starts_with (c ∷ p) [] = false
starts_with (c ∷ p) (d ∷ t) = c == d && starts_with p t

-- `.includes("://")`
unfoldable pub includes_scheme : Text → Bool
includes_scheme [] = false
includes_scheme (c ∷ t) = starts_with (colon ∷ slash ∷ slash ∷ []) (c ∷ t) || includes_scheme t

-- `[/?#@]`
abbrev pub is_forbidden : ℕ → Bool
is_forbidden c = c == slash || (c == b'?' || (c == b'#' || c == b'@'))

abbrev pub is_digit : ℕ → Bool
is_digit c = leb b'0' c && leb c b'9'

abbrev pub is_letter : ℕ → Bool
is_letter c = (leb b'a' c && leb c b'z') || (leb b'A' c && leb c b'Z')

abbrev pub is_alphanumeric : ℕ → Bool
is_alphanumeric c = is_letter c || is_digit c

-- `[0-9a-fA-F:]`
abbrev pub is_hex_or_colon : ℕ → Bool
is_hex_or_colon c =
    is_digit c || ((leb b'a' c && leb c b'f') || ((leb b'A' c && leb c b'F') || c == colon))

-- `\d+`, all of it.
abbrev pub is_digits : Text → Bool
is_digits t = not (is_empty t) && all is_digit t

unfoldable pub span_hex : Text → Text × Text
span_hex [] = ([], [])
span_hex (c ∷ t) =
    let rest = span_hex t in if is_hex_or_colon c then (c ∷ rest.0, rest.1) else ([], c ∷ t)

-- What follows the part in brackets: `]:` and digits.
abbrev pub closing : Text → Text → Option (Text × Text)
closing inside (c ∷ d ∷ port) =
    if (c == b']' && d == colon) && (not (is_empty inside) && is_digits port)
    then some (b'[' ∷ (inside ++ b']' ∷ []), port)
    else none
closing inside _ = none

-- `input.match(/^(\[[0-9a-fA-F:]+\]):(\d+)$/)`
unfoldable pub bracketed : Text → Option (Text × Text)
bracketed [] = none
bracketed (c ∷ t) =
    let (inside, rest) = span_hex t in if c == b'[' then closing inside rest else none

abbrev pub starts_bracket : Text → Bool
starts_bracket [] = false
starts_bracket (c ∷ t) = c == b'['

abbrev pub onto_host : ℕ → Text × Option Text → Text × Option Text
onto_host c (host, port) = (c ∷ host, port)

abbrev pub has_port : Option Text → Bool
has_port none = false
has_port (some p) = true

-- The host and the port, cut at the last colon.
unfoldable pub cut_port : Text → Text × Option Text
cut_port [] = ([], none)
cut_port (c ∷ t) =
    let rest = cut_port t in
    if has_port rest.1 then onto_host c rest else if c == colon then ([], some t) else (c ∷ t, none)

abbrev pub is_label_unit : ℕ → Bool
is_label_unit c = is_alphanumeric c || c == b'-'

abbrev pub first_is_alphanumeric : Text → Bool
first_is_alphanumeric [] = false
first_is_alphanumeric (c ∷ t) = is_alphanumeric c

abbrev pub last_is_alphanumeric : Text → Bool
last_is_alphanumeric [] = false
last_is_alphanumeric (c ∷ []) = is_alphanumeric c
last_is_alphanumeric (c ∷ d ∷ t) = last_is_alphanumeric (d ∷ t)

-- `[a-zA-Z0-9](?:[a-zA-Z0-9-]{0,61}[a-zA-Z0-9])?`, all of it.
unfoldable pub is_label : Text → Bool
is_label t =
    leb (length t) 63
    && (all is_label_unit t && (first_is_alphanumeric t && last_is_alphanumeric t))

abbrev pub onto_label : ℕ → List Text → List Text
onto_label c [] = (c ∷ []) ∷ []
onto_label c (l ∷ ls) = (c ∷ l) ∷ ls

-- The labels between the dots.
unfoldable pub labels : Text → List Text
labels [] = [] ∷ []
labels (c ∷ t) = let rest = labels t in if c == b'.' then [] ∷ rest else onto_label c rest

unfoldable pub is_valid_host : Text → Bool
is_valid_host host = text_eq host (codes "localhost") || all is_label (labels host)

-- `Number(port)` of digits.
abbrev pub number : ℕ → Text → ℕ
number before [] = before
number before (c ∷ t) = number (before * 10 + (c - b'0')) t

unfoldable pub is_valid_port : Text → Bool
is_valid_port port = is_digits port && (leb 1 (number 0 port) && leb (number 0 port) 65535)

abbrev pub lower : Text → Text
lower t = map to_lower t

-- The last check, and the host in lower case with the port.
unfoldable pub with_port : Text → Option Text → RegistryError ⊎ Text
with_port host none = inr (lower host)
with_port host (some port) =
    if is_valid_port port then inr (lower host ++ colon ∷ port) else inl bad_port

unfoldable pub from_bracketed : Option (Text × Text) → RegistryError ⊎ Text
from_bracketed none = inl bad_bracketed
from_bracketed (some (host, port)) = with_port host (some port)

unfoldable pub from_plain : Text → RegistryError ⊎ Text
from_plain input =
    let (host, port) = cut_port input in
    if ltb 1 (tally (λ c. c == colon) input)
    then inl unbracketed
    else if is_valid_host host
    then with_port host port
    else inl bad_host

unfoldable pub normalize_registry_host : Text → RegistryError ⊎ Text
normalize_registry_host value =
    let input = trim value in
    if is_empty input
    then inl no_host
    else if includes_scheme input
    then inl has_scheme
    else if any is_forbidden input
    then inl has_path
    else if starts_bracket input
    then from_bracketed (bracketed input)
    else from_plain input

-- `.split("/", 1)[0]`, which is all of a text without a slash.
unfoldable pub first_part : Text → Text
first_part [] = []
first_part (c ∷ t) = let rest = first_part t in if c == slash then [] else c ∷ rest

unfoldable pub has_explicit_registry : Text → Bool
has_explicit_registry image =
    let first = first_part image in
    text_eq first (codes "localhost")
    || (any (λ c. c == b'.') first || (any (λ c. c == colon) first || starts_bracket first))

-- `.replace(/^\/+/, "")`
unfoldable pub without_slashes : Text → Text
without_slashes [] = []
without_slashes (c ∷ t) = let rest = without_slashes t in if c == slash then rest else c ∷ t

unfoldable pub same_host : Text → Text → RegistryError ⊎ Text → RegistryError ⊎ Text
same_host host repository (inl error) = inl error
same_host host repository (inr image_host) =
    if text_eq image_host host then inr repository else inl (other_host image_host host)

unfoldable pub resolve_at : Text → RegistryError ⊎ Text → RegistryError ⊎ Text
resolve_at repository (inl error) = inl error
resolve_at repository (inr host) =
    if is_empty repository
    then inl no_image
    else if includes_scheme repository
    then inl image_has_scheme
    else if has_explicit_registry repository
    then same_host host repository (normalize_registry_host (first_part repository))
    else inr (host ++ slash ∷ repository)

unfoldable pub resolve_registry_image : Text → Text → RegistryError ⊎ Text
resolve_registry_image registry image =
    resolve_at (without_slashes (trim image)) (normalize_registry_host registry)
