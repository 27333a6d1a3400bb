-- ===== src/Runners/Words.antt =====
-- The words that a POSIX shell reads from the command lines of cli/pkg/system/runner.
use Prim.Native.Char.{Char, code}
use text.Mathlib.TextEquality.{Char-path}
use text.Mathlib.TextLemmas.{cons-append, nil-append, append_assoc, append-nil}
use becloudless.Prelude.{
  ℕ, String, Bool, true, false, ◌&&◌, ◌||◌, Option, none, some, List, [], ◌∷◌, ◌&◌, ◌≡◌, refl, sym,
  ap, ◌∙◌, arith, if◌then◌else◌, eqb, leb, join, Bool-cases, inl, inr,
}
use becloudless.Runners.{
  replace_quotes, quote_arg, shell_quote_args, command_line, package_args, Invocation,
  nix_shell_exec, ssh_exec,
}

-- What the shell takes as it stands outside of quotes: letters, digits and `-_./:,+@%`.
abbrev plain_code : ℕ → Bool
plain_code n =
    leb 97 n && leb n 122
    || leb 65 n && leb n 90
    || leb 48 n && leb n 57
    || eqb n 45
    || eqb n 95
    || eqb n 46
    || eqb n 47
    || eqb n 58
    || eqb n 44
    || eqb n 43
    || eqb n 64
    || eqb n 37

unfoldable pub is_plain : Char → Bool
is_plain c = plain_code (code c)

-- a character before the first word
abbrev pub prepend : Char → Option (List String) → Option (List String)
prepend c none = none
prepend c (some []) = none
prepend c (some (word ∷ words)) = some (String.◌∷◌ c word ∷ words)

abbrev pub begin_word : Option (List String) → Option (List String)
begin_word none = none
begin_word (some words) = some ("" ∷ words)

-- where the reading stands
pub data Mode : Type 0 where
  between_words : Mode
  in_word : Mode
  in_quotes : Mode
  escaped : Mode

-- The words of the rest of a line: in a word, the first of them is the rest of that word. Anything with
-- a meaning of its own for the shell is refused.
unfoldable pub read_words : Mode → String → Option (List String)
read_words between_words String.[] = some []
read_words in_word String.[] = some ("" ∷ [])
read_words in_quotes String.[] = none
read_words escaped String.[] = none
read_words between_words (String.◌∷◌ c s) =
    let blank = read_words between_words s in
    let word = read_words in_word s in
    let quotes = read_words in_quotes s in
    let escape = read_words escaped s in
    if eqb (code c) 32
    then blank
    else if eqb (code c) 39
    then quotes
    else if eqb (code c) 92
    then escape
    else if is_plain c
    then prepend c word
    else none
read_words in_word (String.◌∷◌ c s) =
    let blank = read_words between_words s in
    let word = read_words in_word s in
    let quotes = read_words in_quotes s in
    let escape = read_words escaped s in
    if eqb (code c) 32
    then begin_word blank
    else if eqb (code c) 39
    then quotes
    else if eqb (code c) 92
    then escape
    else if is_plain c
    then prepend c word
    else none
read_words in_quotes (String.◌∷◌ c s) =
    let word = read_words in_word s in
    let quotes = read_words in_quotes s in if eqb (code c) 39 then word else prepend c quotes
read_words escaped (String.◌∷◌ c s) = prepend c (read_words in_word s)

-- the words of a line, as a shell splits it
unfoldable pub shell_words : String → Option (List String)
unfolding read_words
shell_words line = read_words between_words line

abbrev pub prepend_text : String → Option (List String) → Option (List String)
prepend_text String.[] words = words
prepend_text (String.◌∷◌ c s) words = prepend c (prepend_text s words)

before : (c : Char) (s t : String) → String.◌∷◌ c s & t ≡ String.◌∷◌ c (s & t)
before c s t = cons-append c s t

one_before : (c : Char) (t : String) → String.◌∷◌ c "" & t ≡ String.◌∷◌ c t
one_before c t = cons-append c "" t ∙ ap (String.◌∷◌ c) (nil-append t)

-- A quoted text up to its closing quote is the text itself.
read_quoted :
    (a rest : String)
    → read_words in_quotes (replace_quotes a & ("'" & rest))
      ≡ prepend_text a (read_words in_word rest)
unfolding read_words replace_quotes
read_quoted String.[] rest =
    ap (read_words in_quotes) (nil-append ("'" & rest) ∙ one_before "'" rest)
read_quoted (String.◌∷◌ c a) rest = elim (Bool-cases (eqb (code c) 39)) [
  | inl e ↦ rw e (
      ap (read_words in_quotes) (escape_before (replace_quotes a) ("'" & rest))
      ∙ ap (prepend "'") (read_quoted a rest)
      ∙ ap (λ x. prepend x (prepend_text a (read_words in_word rest)))
          (sym (Char-path c "'" (ground (arith, e)))))
  | inr e ↦ rw e (
      ap (read_words in_quotes) (before c (replace_quotes a) ("'" & rest))
      ∙ rw e (ap (prepend c) (read_quoted a rest)))
]
  where
    escape_before :
        (s t : String)
        → ("'\\''" & s) & t
          ≡ String.◌∷◌ "'" (String.◌∷◌ "\\" (String.◌∷◌ "'" (String.◌∷◌ "'" (s & t))))
    escape_before s t =
        append_assoc "'\\''" s t
        ∙ before "'" "\\''" (s & t)
        ∙ ap (String.◌∷◌ "'") (
            before "\\" "''" (s & t)
            ∙ ap (String.◌∷◌ "\\")
                (before "'" "'" (s & t) ∙ ap (String.◌∷◌ "'") (one_before "'" (s & t))))

prepend_text-word :
    (a : String) (words : List String) → prepend_text a (some ("" ∷ words)) ≡ some (a ∷ words)
prepend_text-word String.[] words = refl
prepend_text-word (String.◌∷◌ c a) words = ap (prepend c) (prepend_text-word a words)

-- One quoted argument with what follows it.
read_quote_arg :
    (a rest : String)
    → read_words between_words (quote_arg a & rest) ≡ prepend_text a (read_words in_word rest)
unfolding read_words quote_arg
read_quote_arg a rest =
    ap (read_words between_words) (
      append_assoc "'" (replace_quotes a & "'") rest
      ∙ one_before "'" ((replace_quotes a & "'") & rest)
      ∙ ap (String.◌∷◌ "'") (append_assoc (replace_quotes a) "'" rest))
    ∙ read_quoted a rest

read_args :
    (args : List String) → read_words between_words (join " " (shell_quote_args args)) ≡ some args
unfolding read_words shell_quote_args join
read_args [] = refl
read_args (a ∷ []) =
    ap (read_words between_words) (sym (append-nil (quote_arg a)))
    ∙ read_quote_arg a ""
    ∙ prepend_text-word a []
read_args (a ∷ b ∷ args) =
    read_quote_arg a (" " & join " " (shell_quote_args (b ∷ args)))
    ∙ ap (prepend_text a) (
        ap (read_words in_word) (one_before " " (join " " (shell_quote_args (b ∷ args))))
        ∙ ap begin_word (read_args (b ∷ args)))
    ∙ prepend_text-word a (b ∷ args)

-- A word that the shell takes as it stands.
abbrev pub all_plain : String → Bool
all_plain String.[] = true
all_plain (String.◌∷◌ c s) = is_plain c && all_plain s

abbrev pub is_command : String → Bool
is_command String.[] = false
is_command (String.◌∷◌ c s) = is_plain c && all_plain s

plain_codes :
    (n : ℕ) → plain_code n ≡ true → (eqb n 32 ≡ false) × (eqb n 39 ≡ false) × (eqb n 92 ≡ false)
plain_codes n h = (ground arith, ground arith, ground arith)

plain_is_plain :
    (c : Char)
    → is_plain c ≡ true
    → (eqb (code c) 32 ≡ false) × (eqb (code c) 39 ≡ false) × (eqb (code c) 92 ≡ false)
unfolding is_plain
plain_is_plain c h = plain_codes (code c) h

read_plain_char :
    (c : Char) (s : String)
    → is_plain c ≡ true
    → (read_words in_word (String.◌∷◌ c s) ≡ prepend c (read_words in_word s))
      × (read_words between_words (String.◌∷◌ c s) ≡ prepend c (read_words in_word s))
unfolding read_words
read_plain_char c s h =
    let plain = plain_is_plain c h in
    (rw (plain.0, plain.1, plain.2, h), rw (plain.0, plain.1, plain.2, h))

read_plain :
    (s rest : String)
    → all_plain s ≡ true
    → read_words in_word (s & (" " & rest))
      ≡ prepend_text s (begin_word (read_words between_words rest))
unfolding read_words
read_plain String.[] rest h =
    ap (read_words in_word) (nil-append (" " & rest) ∙ one_before " " rest)
read_plain (String.◌∷◌ c s) rest h =
    ap (read_words in_word) (before c s (" " & rest))
    ∙ (read_plain_char c (s & (" " & rest)) (ground arith)).0
    ∙ ap (prepend c) (read_plain s rest (ground arith))

-- A shell reads the command that a plain word and any arguments make as that word and these arguments.
pub shell_words-command_line :
    (head : String) (args : List String)
    → is_command head ≡ true
    → shell_words (command_line head args) ≡ some (head ∷ args)
unfolding shell_words command_line
shell_words-command_line String.[] args h = cc
shell_words-command_line (String.◌∷◌ c s) args h =
    let rest = join " " (shell_quote_args args) in
    ap (read_words between_words) (before c s (" " & rest))
    ∙ (read_plain_char c (s & (" " & rest)) (ground arith)).1
    ∙ ap (prepend c) (
        read_plain s rest (ground arith)
        ∙ ap (λ x. prepend_text s (begin_word x)) (read_args args)
        ∙ prepend_text-word s args)

-- the line of a session, and the last argument of a command
abbrev pub first_of : List String → String
first_of [] = ""
first_of (s ∷ list) = s

abbrev pub last_of : List String → String
last_of [] = ""
last_of (s ∷ []) = s
last_of (s ∷ t ∷ list) = last_of (t ∷ list)

last_of-package_args :
    (first : String) (packages : List String) (line : String)
    → last_of (first ∷ package_args packages ("--run" ∷ line ∷ [])) ≡ line
last_of-package_args first [] line = refl
last_of-package_args first (pkg ∷ packages) line = last_of-package_args pkg packages line

-- A command that a nix shell of an ssh session runs arrives as it was given: the server reads the line
-- of the session as `nix-shell` with its arguments, and the shell that nix-shell starts reads the last
-- of these as the command and its arguments, whatever characters they have. The command itself must be
-- a word that the shell takes as it stands.
pub nix_shell-over_ssh :
    (packages : List String) (inv : Invocation)
    → is_command inv.head ≡ true
    → (shell_words (first_of (ssh_exec (nix_shell_exec packages inv)).command)
        ≡ some ("nix-shell" ∷ (nix_shell_exec packages inv).args))
      × (shell_words (last_of (nix_shell_exec packages inv).args) ≡ some (inv.head ∷ inv.args))
unfolding ssh_exec nix_shell_exec is_plain
nix_shell-over_ssh packages inv h = (
  shell_words-command_line "nix-shell" (nix_shell_exec packages inv).args refl,
  ap shell_words
        (last_of-package_args "nix-command flakes" packages (command_line inv.head inv.args))
      ∙ shell_words-command_line inv.head inv.args h,
)
