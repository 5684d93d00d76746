-- ===== src/Accounts/Passwords.antt =====
-- What is hashed is verified: password.ts of ui-v2/src/modules/auth/server.
use tokyo_tester.Base.{
  ◌≡◌, refl, ap, ◌∙◌, Bool, true, false, some, List, [], ◌∷◌, ◌++◌, any, length, ℕ, ◌==◌, arith,
}
use tokyo_tester.Names.{Text}
use tokyo_tester.Graph.Texts.{text_eq, text_eq_refl}
use tokyo_tester.Bundle.{codes, is_empty}
use tokyo_tester.Accounts.{Crypto, colon, split_parts, hash_password, verify_parts, verify_password}

abbrev pub has_colon : Text → Bool
has_colon t = any (λ c. c == colon) t

-- What is documented of the calls: a key has as many bytes whatever the password, the text of bytes in
-- hexadecimal is read back, has no colon, and is empty only for no bytes; the comparison is equality.
pub record IsCrypto (k : Crypto) : Type 0 where
  pub key_length : (p q s : Text) → length (k.scrypt p s) ≡ length (k.scrypt q s)
  pub key_IsSome : (p s : Text) → is_empty (k.to_hex (k.scrypt p s)) ≡ false
  pub from_to_hex : (b : List ℕ) → k.from_hex (k.to_hex b) ≡ b
  pub hex_plain : (b : List ℕ) → has_colon (k.to_hex b) ≡ false
  pub compares : (b c : List ℕ) → k.timing_safe_equal b c ≡ text_eq b c

split_parts-plain : (t : Text) → has_colon t ≡ false → split_parts t ≡ t ∷ []
unfolding split_parts
split_parts-plain [] h = refl
split_parts-plain (c ∷ t) h =
    let later : split_parts t ≡ t ∷ [] = split_parts-plain t (ground arith) in ground (arith, later)

split_parts-append :
    (t u : Text) → has_colon t ≡ false → split_parts (t ++ colon ∷ u) ≡ t ∷ split_parts u
unfolding split_parts
split_parts-append [] u h = refl
split_parts-append (c ∷ t) u h =
    let later : split_parts (t ++ colon ∷ u) ≡ t ∷ split_parts u =
      split_parts-append t u (ground arith) in
    ground (arith, later)

module _ (k : Crypto) (law : IsCrypto k) where
  split-hash_password :
      (salt : List ℕ) (p : Text)
      → split_parts (hash_password k salt p)
        ≡ codes "scrypt" ∷ k.to_hex salt ∷ k.to_hex (k.scrypt p (k.to_hex salt)) ∷ []
  unfolding hash_password
  split-hash_password salt p =
      let key = k.to_hex (k.scrypt p (k.to_hex salt)) in
      split_parts-append (codes "scrypt") (k.to_hex salt ++ colon ∷ key) refl
      ∙ ap (λ l. codes "scrypt" ∷ l)
          (split_parts-append (k.to_hex salt) key (law.hex_plain salt)
            ∙ ap (λ l. k.to_hex salt ∷ l)
                (split_parts-plain key (law.hex_plain (k.scrypt p (k.to_hex salt)))))

  verify_parts-hash :
      (salt p q : Text)
      → is_empty salt ≡ false
      → verify_parts k q (codes "scrypt" ∷ salt ∷ k.to_hex (k.scrypt p salt) ∷ [])
        ≡ text_eq (k.scrypt q salt) (k.scrypt p salt)
  unfolding verify_parts
  verify_parts-hash salt p q h =
      let key = k.scrypt p salt in
      let back = law.from_to_hex key in
      rw back (
        ground (
          arith,
          text_eq_refl (codes "scrypt"),
          law.key_IsSome p salt,
          law.compares (k.scrypt q salt) key,
          law.key_length q p salt,
        ))

  verified :
      (salt : List ℕ) (p q : Text)
      → is_empty (k.to_hex salt) ≡ false
      → verify_password k q (some (hash_password k salt p))
        ≡ text_eq (k.scrypt q (k.to_hex salt)) (k.scrypt p (k.to_hex salt))
  unfolding verify_password hash_password
  verified salt p q h =
      ap (verify_parts k q) (split-hash_password salt p) ∙ verify_parts-hash (k.to_hex salt) p q h

  -- A password that was hashed with a salt of at least one byte is verified exactly if the key of the
  -- entered password with that salt is the key of the hashed one; so the same password always is.
  pub verify_password-hash_password :
      (salt : List ℕ) (p q : Text)
      → is_empty (k.to_hex salt) ≡ false
      → (verify_password k q (some (hash_password k salt p))
          ≡ text_eq (k.scrypt q (k.to_hex salt)) (k.scrypt p (k.to_hex salt)))
        × (verify_password k p (some (hash_password k salt p)) ≡ true)
  verify_password-hash_password salt p q h =
      (verified salt p q h, verified salt p p h ∙ text_eq_refl (k.scrypt p (k.to_hex salt)))
