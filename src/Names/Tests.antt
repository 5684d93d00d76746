-- ===== src/Names/Tests.antt =====
-- `sanitizeName` of scenario-translator.ts on a concrete label.
use tokyo_tester.Base.{◌≡◌, refl, [], ◌∷◌}
use tokyo_tester.Names.{Text, sanitize_name}

-- "_My  DB!"
abbrev label : Text
label = b'_' ∷ b'M' ∷ b'y' ∷ b' ' ∷ b' ' ∷ b'D' ∷ b'B' ∷ b'!' ∷ []

label_name : sanitize_name label ≡ b'm' ∷ b'y' ∷ b'_' ∷ b'd' ∷ b'b' ∷ []
unfolding sanitize_name
label_name = refl
