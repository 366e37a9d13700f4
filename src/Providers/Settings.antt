-- ===== src/Providers/Settings.antt =====
-- What the constructors and the accessors of the providers share: internal/provider/utils/provider.go,
-- and the order of the checks of settings.
use ddns_updater_beget.Common.{
  Bool, true, false, ◌⊎◌, inl, inr, List, [], ◌∷◌, ◌++◌, Option, none, some, Bytes, codes, Error,
}
use ddns_updater_beget.Net.{Prefix}
use ddns_updater_beget.IpVersion.{IpVersion, show}
use ddns_updater_beget.Domain.{check_domain, build_domain_name}
use ddns_updater_beget.Records.{Provider}
use ddns_updater_beget.Providers.Errors.{Setting, SettingError, bad_domain, refused}

-- The fields that nearly every Provider struct has.
pub record Base : Type 0 where
  pub domain : Bytes
  pub owner : Bytes
  pub ip_version : IpVersion
  pub ipv6_suffix : Prefix

-- The structs that encoding/json decodes the provider's own settings to; a missing field is the
-- empty string.
pub record UserPassword : Type 0 where
  pub username : Bytes
  pub password : Bytes

pub record UserToken : Type 0 where
  pub username : Bytes
  pub token : Bytes

pub record OnlyPassword : Type 0 where
  pub password : Bytes

pub record OnlyToken : Type 0 where
  pub token : Bytes

-- models.HTMLRow, as far as a provider fills it.
pub record HtmlRow : Type 0 where
  pub domain : Bytes
  pub owner : Bytes
  pub provider : Bytes
  pub ip_version : Bytes

-- What the accessors return: String, HTML, and the others.
pub record Described : Type 0 where
  pub name : Bytes
  pub row : HtmlRow
  pub accessors : Provider

-- utils.ToString
unfoldable pub to_string : Bytes → Bytes → Bytes → IpVersion → Bytes
unfolding show
to_string domain owner provider version =
    codes "[domain: "
    ++ (domain
        ++ (codes " | owner: "
            ++ (owner
                ++ (codes " | provider: "
                    ++ (provider ++ (codes " | ip: " ++ (show version ++ codes "]")))))))

-- <a href="url">text</a>
unfoldable pub anchor : Bytes → Bytes → Bytes
anchor url text = codes "<a href=" ++ 34 ∷ (url ++ 34 ∷ b'>' ∷ (text ++ codes "</a>"))

unfoldable pub html_row : Base → Bytes → Bytes → HtmlRow
unfolding anchor show
html_row b domain_name link = record {
  domain = anchor (codes "http://" ++ domain_name) domain_name;
  owner = b.owner;
  provider = link;
  ip_version = show b.ip_version;
}

-- The accessors that most providers share, from the provider's constant and its link.
unfoldable pub described : Base → Bytes → Bytes → Described
unfolding to_string html_row build_domain_name
described b constant link = record {
  name = to_string b.domain b.owner constant b.ip_version;
  row = html_row b (build_domain_name b.owner b.domain) link;
  accessors = record {
    domain = b.domain;
    owner = b.owner;
    domain_name = build_domain_name b.owner b.domain;
    ip_version = b.ip_version;
    ipv6_suffix = b.ipv6_suffix;
    proxied = false;
  };
}

-- The cases of a validation, in their order.
unfoldable pub first_refusal : List (Bool × SettingError) → Option SettingError
first_refusal [] = none
first_refusal ((b, e) ∷ cases) = elim b [ true ↦ some e | false ↦ first_refusal cases ]

-- utils.CheckDomain, then the cases.
unfoldable pub checked_domain : Bytes → List (Bool × SettingError) → Option SettingError
unfolding check_domain first_refusal
checked_domain domain cases = elim (check_domain domain) [
  | some e ↦ some (bad_domain e)
  | none ↦ first_refusal cases
]

unfoldable pub refuses : Setting → SettingError
refuses s = refused s []

-- The errors of New: that of encoding/json, or that of the validation.
pub data NewError : Type 0 where
  not_decoded : Error → NewError
  not_valid : SettingError → NewError

unfoldable pub validated {ℓ} : {A : Type ℓ} → Option SettingError → A → A ⊎ NewError
validated none p = inl p
validated (some e) p = inr (not_valid e)
