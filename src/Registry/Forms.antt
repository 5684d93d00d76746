-- ===== src/Registry/Forms.antt =====
-- The form of ui-v2/src/modules/workflow/lib/registry-config.ts and the configuration that it stands for.
use tokyo_tester.Base.{
  ◌≡◌, refl, ap, ◌∙◌, Bool, true, false, not, Option, none, some, ◌⊎◌, inl, inr, [], ◌∷◌, arith,
  if◌then◌else◌,
}
use tokyo_tester.Names.{Text}
use tokyo_tester.Scenario.{is_space}
use tokyo_tester.Bundle.{trim, trim_start, trim_end, is_empty}
use tokyo_tester.Registry.{RegistryError, normalize_registry_host}
use tokyo_tester.Registry.Normal.{IsFixed, normalize_registry_host-IsFixed}

-- `no_auth` is the type "none".
pub data RegistryAuthType : Type 0 where
  no_auth basic token : RegistryAuthType

pub record RegistryRuntimeConfig : Type 0 where
  pub url : Text
  pub auth_type : RegistryAuthType
  pub username : Option Text
  pub password : Option Text
  pub token : Option Text

pub record RegistryFormValue : Type 0 where
  pub enabled : Bool
  pub url : Text
  pub auth_type : RegistryAuthType
  pub username : Text
  pub password : Text
  pub token : Text

abbrev pub empty_registry_form : RegistryFormValue
empty_registry_form = record {
  enabled = false;
  url = [];
  auth_type = basic;
  username = [];
  password = [];
  token = [];
}

abbrev pub or_nothing : Option Text → Text
or_nothing none = []
or_nothing (some t) = t

unfoldable pub registry_form_from_config : Option RegistryRuntimeConfig → RegistryFormValue
registry_form_from_config none = empty_registry_form
registry_form_from_config (some c) = record {
  enabled = true;
  url = c.url;
  auth_type = c.auth_type;
  username = or_nothing c.username;
  password = or_nothing c.password;
  token = or_nothing c.token;
}

pub data FormError : Type 0 where
  registry_url : RegistryError → FormError
  registry_username registry_password registry_token : FormError

unfoldable pub missing_credential : RegistryAuthType → RegistryFormValue → Option FormError
missing_credential no_auth v = none
missing_credential basic v =
    if is_empty (trim v.username)
    then some registry_username
    else if is_empty v.password
    then some registry_password
    else none
missing_credential RegistryAuthType.token v = if is_empty v.token then some registry_token else none

abbrev pub after_host : RegistryError ⊎ Text → RegistryFormValue → Option FormError
after_host (inl error) v = some (registry_url error)
after_host (inr host) v = missing_credential v.auth_type v

unfoldable pub validate_registry_form : RegistryFormValue → Option FormError
validate_registry_form v =
    if not v.enabled then none else after_host (normalize_registry_host v.url) v

unfoldable pub config_at : RegistryAuthType → Text → RegistryFormValue → RegistryRuntimeConfig
config_at no_auth host v = record {
  url = host;
  auth_type = no_auth;
  username = none;
  password = none;
  token = none;
}
config_at basic host v = record {
  url = host;
  auth_type = basic;
  username = some (trim v.username);
  password = some v.password;
  token = none;
}
config_at RegistryAuthType.token host v = record {
  url = host;
  auth_type = RegistryAuthType.token;
  username = none;
  password = none;
  token = some v.token;
}

abbrev pub config_of :
    RegistryError ⊎ Text → RegistryFormValue → RegistryError ⊎ Option RegistryRuntimeConfig
config_of (inl error) v = inl error
config_of (inr host) v = inr (some (config_at v.auth_type host v))

-- `undefined` is `none`.
unfoldable pub registry_config_from_form :
    RegistryFormValue → RegistryError ⊎ Option RegistryRuntimeConfig
registry_config_from_form v =
    if not v.enabled then inr none else config_of (normalize_registry_host v.url) v

starts_visible : Text → Bool
starts_visible [] = true
starts_visible (c ∷ t) = not (is_space c)

trim_start-visible : (t : Text) → starts_visible (trim_start t) ≡ true
unfolding starts_visible trim_start
trim_start-visible [] = refl
trim_start-visible (c ∷ t) = ground (arith, trim_start-visible t)

trim_end-visible : (t : Text) → starts_visible t ≡ true → starts_visible (trim_end t) ≡ true
unfolding starts_visible trim_end
trim_end-visible [] h = refl
trim_end-visible (c ∷ t) h = ground arith

trim_start-kept : (t : Text) → starts_visible t ≡ true → trim_start t ≡ t
unfolding starts_visible trim_start
trim_start-kept [] h = refl
trim_start-kept (c ∷ t) h = ground arith

trim_end_idem : (t : Text) → trim_end (trim_end t) ≡ trim_end t
unfolding trim_end
trim_end_idem [] = refl
trim_end_idem (c ∷ t) = ground (arith, trim_end_idem t)

trim_idem : (t : Text) → trim (trim t) ≡ trim t
unfolding trim
trim_idem t =
    ap trim_end (
      trim_start-kept (trim_end (trim_start t))
        (trim_end-visible (trim_start t) (trim_start-visible t)))
    ∙ trim_end_idem (trim_start t)

config_at-again :
    (a : RegistryAuthType) (host : Text) (v : RegistryFormValue)
    → config_at a host (registry_form_from_config (some (config_at a host v))) ≡ config_at a host v
unfolding config_at registry_form_from_config
config_at-again no_auth host v = refl
config_at-again basic host v =
    ap
      (λ u. record {
        url = host;
        auth_type = basic;
        username = some u;
        password = some v.password;
        token = none;
      })
      (trim_idem v.username)
config_at-again RegistryAuthType.token host v = refl

-- The configuration of the form of a configuration is that configuration.
abbrev pub IsKept : RegistryError ⊎ Option RegistryRuntimeConfig → Type 0
IsKept (inl error) = Unit
IsKept (inr c) = registry_config_from_form (registry_form_from_config c) ≡ inr c

config_again :
    (a : RegistryAuthType) (host : Text) (v : RegistryFormValue)
    → normalize_registry_host host ≡ inr host
    → registry_config_from_form (registry_form_from_config (some (config_at a host v)))
      ≡ inr (some (config_at a host v))
unfolding registry_config_from_form registry_form_from_config config_at
config_again no_auth host v e = rw e refl
config_again basic host v e = rw e (ap (λ c. inr (some c)) (config_at-again basic host v))
config_again RegistryAuthType.token host v e = rw e refl

config_of-IsKept :
    (n : RegistryError ⊎ Text) (v : RegistryFormValue) → IsFixed n → IsKept (config_of n v)
config_of-IsKept (inl error) v h = tt
config_of-IsKept (inr host) v h = config_again v.auth_type host v h.0

inr-IsKept : IsKept (inr none)
unfolding registry_config_from_form registry_form_from_config
inr-IsKept = refl

either-IsKept :
    (b : Bool) (x y : RegistryError ⊎ Option RegistryRuntimeConfig)
    → IsKept x
    → IsKept y
    → IsKept (if b then x else y)
either-IsKept true x y h k = h
either-IsKept false x y h k = k

-- The configuration that a form is turned into, if its host is accepted, is turned into a form whose
-- configuration it is; this holds too for a form that is not enabled, which has none.
pub registry_config_from_form-IsKept :
    (v : RegistryFormValue) → IsKept (registry_config_from_form v)
unfolding registry_config_from_form
registry_config_from_form-IsKept v =
    either-IsKept (not v.enabled) (inr none) (config_of (normalize_registry_host v.url) v)
      inr-IsKept
      (config_of-IsKept (normalize_registry_host v.url) v (normalize_registry_host-IsFixed v.url))
