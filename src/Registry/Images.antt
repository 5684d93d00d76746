-- ===== src/Registry/Images.antt =====
-- The host in the image that resolveRegistryImage of registry-config.ts answers.
use tokyo_tester.Base.{
  ◌≡◌, refl, ap, ◌∙◌, Bool, Bool-cases, inl, inr, true, false, ◌⊎◌, [], ◌∷◌, ◌++◌, all, ◌==◌, arith,
  if◌then◌else◌,
}
use tokyo_tester.Names.{Text}
use tokyo_tester.Graph.Texts.{text_eq, text_eq_iff}
use tokyo_tester.Bundle.{trim, is_empty}
use tokyo_tester.Registry.{
  RegistryError, no_image, image_has_scheme, slash, includes_scheme, normalize_registry_host,
  first_part, has_explicit_registry, without_slashes, same_host, resolve_at, resolve_registry_image,
}
use tokyo_tester.Registry.Hosts.{is_host_unit}
use tokyo_tester.Registry.Normal.{IsFixed, normalize_registry_host-IsFixed}

-- What is resolved of this repository for this registry: the part before the first slash, which is all
-- of it where there is none, is accepted as the same host as the registry, and the rest is the
-- repository's.
abbrev pub HasHost : Text → Text → RegistryError ⊎ Text → Type 0
HasHost registry repository (inl error) = Unit
HasHost registry repository (inr image) =
    (host : Text) × ((normalize_registry_host registry ≡ inr host)
      × ((normalize_registry_host (first_part image) ≡ inr host)
          × ((image ≡ repository) ⊎ (image ≡ host ++ slash ∷ repository))))

first_part-append : (h t : Text) → all is_host_unit h ≡ true → first_part (h ++ slash ∷ t) ≡ h
unfolding first_part
first_part-append [] t u = refl
first_part-append (c ∷ h) t u =
    let rest = first_part-append h t (ground arith) in
    let other : c == slash ≡ false = ground arith in rw (rest, other) refl

module _ (registry repository : Text) where
  either-HasHost :
      (b : Bool) (x y : RegistryError ⊎ Text)
      → HasHost registry repository x
      → HasHost registry repository y
      → HasHost registry repository (if b then x else y)
  either-HasHost true x y h k = h
  either-HasHost false x y h k = k

  same_host-HasHost :
      (host : Text) (n : RegistryError ⊎ Text)
      → normalize_registry_host registry ≡ inr host
      → normalize_registry_host (first_part repository) ≡ n
      → HasHost registry repository (same_host host repository n)
  unfolding same_host
  same_host-HasHost host (inl error) e f = tt
  same_host-HasHost host (inr image_host) e f = elim (Bool-cases (text_eq image_host host)) [
    | inl same ↦ rw same (host, (e, (f ∙ ap inr ((text_eq_iff image_host host).0 same), inl refl)))
    | inr other ↦ rw other tt
  ]

  resolve_at-HasHost :
      (n : RegistryError ⊎ Text)
      → normalize_registry_host registry ≡ n
      → IsFixed n
      → HasHost registry repository (resolve_at repository n)
  unfolding resolve_at
  resolve_at-HasHost (inl error) e h = tt
  resolve_at-HasHost (inr host) e (fixed, visible) =
      let found = same_host host repository (normalize_registry_host (first_part repository)) in
      let prefixed : HasHost registry repository (inr (host ++ slash ∷ repository)) = (
        host,
        (
          e,
          (
            ap normalize_registry_host (first_part-append host repository visible) ∙ fixed,
            inr refl,
          ),
        ),
      ) in
      let hosted =
        if has_explicit_registry repository then found else inr (host ++ slash ∷ repository) in
      let bare = if includes_scheme repository then inl image_has_scheme else hosted in
      either-HasHost (is_empty repository) (inl no_image) bare tt (
        either-HasHost (includes_scheme repository) (inl image_has_scheme) hosted tt (
          either-HasHost (has_explicit_registry repository) found (inr (host ++ slash ∷ repository))
            (same_host-HasHost host (normalize_registry_host (first_part repository)) e refl)
            prefixed))

-- Where an image is resolved for a registry, the registry is accepted as a host, and so is the part of
-- the result before its first slash, or all of it where it has no slash; the two hosts are the same.
-- The result is the given image without surrounding space and leading slashes, or that behind the host
-- and a slash.
pub resolve_registry_image-HasHost :
    (registry image : Text)
    → HasHost registry (without_slashes (trim image)) (resolve_registry_image registry image)
unfolding resolve_registry_image
resolve_registry_image-HasHost registry image =
    resolve_at-HasHost registry (without_slashes (trim image)) (normalize_registry_host registry)
      refl (normalize_registry_host-IsFixed registry)
