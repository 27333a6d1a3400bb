-- ===== src/Git/Urls.antt =====
-- The addresses of repositories: `ParseGitUrl` of cli/pkg/git/utils.go and the registry of images of
-- cli/pkg/docker/registry.go. `url.Parse` is a parameter that gives the host and the path.
use becloudless.Prelude.{
  String, ◌&◌, ◌==◌, Option, some, none, List, ◌∷◌, if◌then◌else◌, Outcome, ok, err, ◌>>=◌,
  cut_prefix, split_on, trim_prefix, trim_suffix,
}

pub data UrlError : Type 0 where
  url_malformed : UrlError
  no_owner_and_repo : String → UrlError
  not_scp_like : String → UrlError
  format_unsupported : String → UrlError

-- the results of `ParseGitUrl` but for the error
pub record Remote : Type 0 where
  pub host : String
  pub owner : String
  pub repo : String

-- what `url.Parse` gives
pub record ParsedUrl : Type 0 where
  pub host : String
  pub path : String

abbrev after_first : String → Option (String × String) → Option (String × String)
after_first c none = none
after_first c (some (before, after)) = some (c & before, after)

abbrev or_else_cut : Option String → Option (String × String) → Option (String × String)
or_else_cut none rest = rest
or_else_cut (some after) rest = some ("", after)

-- `strings.Cut(s, sep)` for a `sep` that is not empty
unfoldable pub cut : String → String → Option (String × String)
unfolding cut_prefix
cut sep String.[] = none
cut sep (String.◌∷◌ c s) =
    let rest = cut sep s in
    or_else_cut (cut_prefix (String.◌∷◌ c s) sep) (after_first (String.◌∷◌ c "") rest)

abbrev pub owner_and_repo : String → String → List String → Outcome UrlError Remote
owner_and_repo git_url host (owner ∷ repo ∷ parts) =
    ok (record { host = host; owner = owner; repo = trim_suffix repo ".git" })
owner_and_repo git_url host _ = err (no_owner_and_repo git_url)

abbrev pub host_name : String → Option (String × String) → String
host_name host none = host
host_name host (some (before, port)) = before

abbrev pub parse_url : String → Option ParsedUrl → Outcome UrlError Remote
parse_url git_url none = err url_malformed
parse_url git_url (some u) =
    owner_and_repo git_url (host_name u.host (cut ":" u.host))
      (split_on "/" (trim_prefix u.path "/"))

abbrev pub parse_path : String → Option (String × String) → Outcome UrlError Remote
parse_path git_url none = err (not_scp_like git_url)
parse_path git_url (some (host, path)) = owner_and_repo git_url host (split_on "/" path)

abbrev pub parse_scp_like : String → Option (String × String) → Outcome UrlError Remote
parse_scp_like git_url none = err (format_unsupported git_url)
parse_scp_like git_url (some (user, rest)) = parse_path git_url (cut ":" rest)

module _ (url_parse : String → Option ParsedUrl) where
  abbrev pub parse_with_scheme : String → Option (String × String) → Outcome UrlError Remote
  parse_with_scheme git_url none = parse_scp_like git_url (cut "@" git_url)
  parse_with_scheme git_url (some (scheme, rest)) = parse_url git_url (url_parse git_url)

  -- `ParseGitUrl`
  unfoldable pub parse_git_url : String → Outcome UrlError Remote
  unfolding cut split_on trim_prefix trim_suffix
  parse_git_url git_url = parse_with_scheme git_url (cut "://" git_url)

  -- `GetRegistryAndRepositoryFromGitUrl`
  unfoldable pub get_registry_and_repository_from_git_url :
      String → Outcome UrlError (String × String)
  unfolding parse_git_url
  get_registry_and_repository_from_git_url git_url = parse_git_url git_url >>= λ r.
      ok ((if r.host == "github.com" then "ghcr.io" else r.host) & "/" & r.owner, r.repo)
