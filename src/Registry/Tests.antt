-- ===== src/Registry/Tests.antt =====
-- Registries, images and forms at concrete inputs.
use tokyo_tester.Base.{◌≡◌, refl, true, inl, inr, []}
use tokyo_tester.Names.{to_lower}
use tokyo_tester.Graph.Texts.{text_eq}
use tokyo_tester.Scenario.{is_space}
use tokyo_tester.Bundle.{codes, trim, trim_start, trim_end}
use tokyo_tester.Registry.{
  without_slashes, bad_port, includes_scheme, span_hex, bracketed, cut_port, is_label, labels,
  is_valid_host, is_valid_port, with_port, from_bracketed, from_plain, normalize_registry_host,
  resolve_registry_image,
}
use tokyo_tester.Registry.Normal.{IsFixed, normalize_registry_host-IsFixed}
use tokyo_tester.Registry.Images.{HasHost, resolve_registry_image-HasHost}
use tokyo_tester.Registry.Forms.{
  RegistryFormValue, basic, registry_config_from_form, IsKept, registry_config_from_form-IsKept,
}

normalized : normalize_registry_host (codes " GHCR.io:443 ") ≡ inr (codes "ghcr.io:443")
unfolding normalize_registry_host trim trim_start trim_end is_space includes_scheme from_plain
    cut_port is_valid_host labels is_label is_valid_port with_port to_lower text_eq
normalized = refl

in_brackets : normalize_registry_host (codes "[::1A]:5000") ≡ inr (codes "[::1a]:5000")
unfolding normalize_registry_host trim trim_start trim_end is_space includes_scheme from_bracketed
    bracketed span_hex is_valid_port with_port to_lower
in_brackets = refl

port_too_high : normalize_registry_host (codes "ghcr.io:65536") ≡ inl bad_port
unfolding normalize_registry_host trim trim_start trim_end is_space includes_scheme from_plain
    cut_port is_valid_host labels is_label is_valid_port with_port to_lower text_eq
port_too_high = refl

normalize_registry_host-IsFixed_example : IsFixed (normalize_registry_host (codes " GHCR.io:443 "))
normalize_registry_host-IsFixed_example = normalize_registry_host-IsFixed (codes " GHCR.io:443 ")

resolve_registry_image-HasHost_example :
    HasHost
      (codes "GHCR.io")
      (without_slashes (trim (codes "/team/app:1")))
      (resolve_registry_image (codes "GHCR.io") (codes "/team/app:1"))
resolve_registry_image-HasHost_example =
    resolve_registry_image-HasHost (codes "GHCR.io") (codes "/team/app:1")

abbrev entered : RegistryFormValue
entered = record {
  enabled = true;
  url = codes "GHCR.io";
  auth_type = basic;
  username = codes " ann ";
  password = codes "secret";
  token = [];
}

registry_config_from_form-IsKept_example : IsKept (registry_config_from_form entered)
registry_config_from_form-IsKept_example = registry_config_from_form-IsKept entered
