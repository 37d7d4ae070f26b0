-- ===== src/Config/Runtime.antt =====
-- src/config.rs: the runtime configuration and the listen address, from the variables of the
-- environment. The parsers of integers are arguments; warnings are left out.
use mathlib.Core.List.{reverse}
use simply_ip_exporter.Prelude.{
  ℕ, max, ◌==◌, Option, none, some, List, [], ◌∷◌, is_empty, if◌then◌else◌,
}
use simply_ip_exporter.Prelude.Int.{ℤ, pos, negsuc}
use simply_ip_exporter.Prelude.Net.{IpAddr, v4, IpNets}
use simply_ip_exporter.Prelude.Result.{Result, ok, ◌>>=◌}
use simply_ip_exporter.Prelude.Text.{Text, trim}
use simply_ip_exporter.Config
use simply_ip_exporter.Config.{TrustedProxies, InvalidProxyEntry}

abbrev pub default_signature_max_age_seconds : ℤ
default_signature_max_age_seconds = pos 300

pub record RuntimeConfig (IpNet : Type 0) : Type 0 where
  pub trusted_proxies : TrustedProxies IpNet
  pub signature_max_age_seconds : ℤ
  pub vault_base_url : Option Text
  pub vault_api_key : Option Text
  pub vault_signing_secret : Option Text

-- The variables that are read.
pub record Variables : Type 0 where
  pub trusted_proxies : Option Text
  pub signature_max_age_seconds : Option Text
  pub vault_base_url : Option Text
  pub vault_api_key : Option Text
  pub vault_signing_secret : Option Text

pub parse_or : {A : Type 0} → (Text → Option A) → Option Text → A → A
parse_or parse none default = default
parse_or parse (some raw) default = elim (parse raw) [ none ↦ default | some value ↦ value ]

-- The variable is the argument.
pub parse_or_warn : {A : Type 0} → (Text → Option A) → Option Text → A → A
parse_or_warn parse none default = default
parse_or_warn parse (some raw) default = parse_or parse (some (trim raw)) default

-- `.max(1)`.
abbrev pub at_least_one : ℤ → ℤ
at_least_one (pos n) = pos (max n 1)
at_least_one (negsuc n) = pos 1

pub trim_start_matches : ℕ → Text → Text
trim_start_matches sep [] = []
trim_start_matches sep (c ∷ s) =
    let rest = trim_start_matches sep s in if c == sep then rest else c ∷ s

pub trim_end_matches : ℕ → Text → Text
trim_end_matches sep s = reverse (trim_start_matches sep (reverse s))

-- `.filter(|s| !s.is_empty())`.
abbrev pub not_empty : Option Text → Option Text
not_empty none = none
not_empty (some s) = if is_empty s then none else some s

abbrev pub without_slashes : Option Text → Option Text
without_slashes none = none
without_slashes (some url) = some (trim_end_matches b'/' url)

module _ (nets : IpNets) where
  open nets use {IpNet, parse_addr}

  pub from_env :
      (Text → Option ℤ) → Variables → Result (List InvalidProxyEntry) (RuntimeConfig IpNet)
  from_env parse_i64 vars = Config.from_env nets vars.trusted_proxies >>= λ trusted_proxies.
      ok (record {
        trusted_proxies = trusted_proxies;
        signature_max_age_seconds = at_least_one (
            parse_or_warn parse_i64 vars.signature_max_age_seconds
              default_signature_max_age_seconds);
        vault_base_url = not_empty (without_slashes vars.vault_base_url);
        vault_api_key = not_empty vars.vault_api_key;
        vault_signing_secret = not_empty vars.vault_signing_secret;
      })

  -- A host or port that is blank counts as none.
  abbrev pub given : Option Text → Option Text
  given none = none
  given (some raw) = not_empty (some (trim raw))

  pub parse_bind_addr : (Text → Option ℕ) → Option Text → Option Text → IpAddr × ℕ
  parse_bind_addr parse_u16 host port =
      (parse_or parse_addr (given host) (v4 0), parse_or parse_u16 (given port) 3_002)

  -- BIND_HOST, else HOST; and PORT.
  pub resolve_bind_addr : (Text → Option ℕ) → Option Text → Option Text → Option Text → IpAddr × ℕ
  resolve_bind_addr parse_u16 (some bind_host) host port =
      parse_bind_addr parse_u16 (some bind_host) port
  resolve_bind_addr parse_u16 none host port = parse_bind_addr parse_u16 host port
