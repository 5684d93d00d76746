-- ===== src/Names.antt =====
-- `sanitizeName` of ui-v2/src/modules/utils/scenario-translator.ts. A text is the list of its UTF-16
-- code units. Lower case is that of ASCII: the two letters outside ASCII whose lower case has an
-- ASCII letter (U+0130 and U+212A) are replaced like any other.
pub mod Laws
mod Tests
use tokyo_tester.Base.{
  ℕ, ◌+◌, Bool, true, false, ◌&&◌, ◌||◌, List, [], ◌∷◌, map, leb, ◌==◌, if◌then◌else◌,
}

abbrev pub Text : Type 0
Text = List ℕ

abbrev pub underscore : ℕ
underscore = 95

unfoldable pub to_lower : ℕ → ℕ
to_lower c = if leb b'A' c && leb c b'Z' then c + 32 else c

-- `[a-z0-9_-]`
pub is_plain : ℕ → Bool
is_plain c =
    (leb b'a' c && leb c b'z') || ((leb b'0' c && leb c b'9') || (c == underscore || c == b'-'))

-- `.replace(/[^a-z0-9_-]/g, "_")`
pub replace_unit : ℕ → ℕ
unfolding is_plain
replace_unit c = if is_plain c then c else underscore

abbrev pub starts_low : Text → Bool
starts_low [] = false
starts_low (c ∷ _) = c == underscore

-- `.replace(/_+/g, "_")`
pub collapse : Text → Text
collapse [] = []
collapse (c ∷ t) =
    let rest = collapse t in if c == underscore && starts_low rest then rest else c ∷ rest

-- `.replace(/^_|_$/g, "")`: one underscore at the front, and one at the end of what is left.
pub strip_front : Text → Text
strip_front [] = []
strip_front (c ∷ t) = if c == underscore then t else c ∷ t

pub strip_back : Text → Text
strip_back [] = []
strip_back (c ∷ []) = if c == underscore then [] else c ∷ []
strip_back (c ∷ d ∷ t) = c ∷ strip_back (d ∷ t)

unfoldable pub sanitize_name : Text → Text
unfolding to_lower replace_unit collapse strip_front strip_back
sanitize_name label =
    strip_back (strip_front (collapse (map (λ c. replace_unit (to_lower c)) label)))
