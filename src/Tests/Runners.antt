-- ===== src/Tests/Runners.antt =====
-- Runs and witnesses for cli/pkg/system/runner and cli/pkg/version/version.go.
use becloudless.Prelude.{
  ℕ, String, ◌≡◌, refl, true, false, none, some, List, [], ◌∷◌, ◌||◌, eqb, join, cut_prefix,
  decimal,
}
use becloudless.Runners.{
  Invocation, exec_cmd_get_stdout, command_line, nix_shell_exec, ssh_exec, shell_quote_args,
  quote_arg, replace_quotes,
}
use becloudless.Runners.Words.{nix_shell-over_ssh, shell_words, is_plain, first_of, last_of}
use becloudless.Versions.{
  pos, next_bugfix, generate_incremental_version, bugfix_of, atoi, digits_value, itoa,
}
use becloudless.Versions.Next.{next_bugfix-above, all_below, is_next_of}

abbrev list_files : Invocation
list_files = record {
  envs = none;
  stdin = none;
  stdout = none;
  stderr = none;
  head = "ls";
  args = "it's here" ∷ "" ∷ [];
}

nix_shell-over_ssh_example :
    (shell_words (first_of (ssh_exec (nix_shell_exec ("git" ∷ []) list_files)).command)
      ≡ some ("nix-shell" ∷ (nix_shell_exec ("git" ∷ []) list_files).args))
    × (shell_words (last_of (nix_shell_exec ("git" ∷ []) list_files).args)
        ≡ some ("ls" ∷ "it's here" ∷ "" ∷ []))
unfolding is_plain
nix_shell-over_ssh_example = nix_shell-over_ssh ("git" ∷ []) list_files refl

test_line : command_line "ls" ("it's here" ∷ []) ≡ "ls 'it'\\''s here'"
unfolding command_line shell_quote_args quote_arg replace_quotes join
test_line = refl

abbrev tags : List String
tags = "v1.250101.0" ∷ "v1.250101.10" ∷ "v1.250101.9" ∷ "v1.250102.40" ∷ "v1.250101.rc" ∷ []

next_bugfix-above_example :
    (k : ℕ) × (next_bugfix "v1.250101." tags (pos 0) ≡ pos k)
    × (all_below "v1.250101." k tags ≡ true)
    × ((eqb k 0 || is_next_of "v1.250101." k tags) ≡ true)
unfolding all_below bugfix_of atoi digits_value cut_prefix
next_bugfix-above_example = next_bugfix-above "v1.250101." tags refl

test_version : generate_incremental_version (pos 1) "250101" (some tags) ≡ some "1.250101.11"
unfolding generate_incremental_version next_bugfix bugfix_of atoi digits_value cut_prefix itoa
    decimal
test_version = refl

-- The number after the largest one is negative.
test_wraps :
    generate_incremental_version (pos 1) "250101" (some ("v1.250101.9223372036854775807" ∷ []))
    ≡ some "1.250101.-9223372036854775808"
unfolding generate_incremental_version next_bugfix bugfix_of atoi digits_value cut_prefix itoa
    decimal
test_wraps = refl

test_trimmed : exec_cmd_get_stdout (λ i. (" 6.1.0\n", false)) "uname" ("-r" ∷ []) ≡ ("6.1.0", false)
unfolding exec_cmd_get_stdout
test_trimmed = refl
