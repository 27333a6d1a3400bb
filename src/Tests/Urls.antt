-- ===== src/Tests/Urls.antt =====
-- Runs for the addresses of repositories and the prefixes of changed files.
use becloudless.Prelude.{String, ◌≡◌, refl, Option, some, ok, err, [], ◌∷◌, true}
use becloudless.Git.{added}
use becloudless.Git.Urls.{
  ParsedUrl, parse_git_url, get_registry_and_repository_from_git_url, format_unsupported,
}
use becloudless.Git.Prefixes.{prefixes_of, is_changed}

abbrev github : String → Option ParsedUrl
github url = some (record { host = "github.com:443"; path = "/owner/repo.git" })

test_scp :
    parse_git_url github "git@github.com:owner/repo.git"
    ≡ ok (record { host = "github.com"; owner = "owner"; repo = "repo" })
unfolding parse_git_url
test_scp = refl

test_url :
    get_registry_and_repository_from_git_url github "https://github.com:443/owner/repo.git"
    ≡ ok ("ghcr.io/owner", "repo")
unfolding get_registry_and_repository_from_git_url
test_url = refl

test_unsupported : parse_git_url github "owner/repo" ≡ err (format_unsupported "owner/repo")
unfolding parse_git_url
test_unsupported = refl

test_prefixes : prefixes_of ("cli/\n kube/ \n" ∷ "" ∷ []) ≡ "cli/" ∷ "kube/" ∷ []
unfolding prefixes_of
test_prefixes = refl

test_changed :
    is_changed (("README.md", added) ∷ ("kube/x", added) ∷ []) ("cli/" ∷ "kube/" ∷ []) ≡ true
unfolding is_changed
test_changed = refl
