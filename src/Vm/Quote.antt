-- ===== src/Vm/Quote.antt =====
-- runtime/pullrun-vm/src/ext4.rs: the command that the init script of a machine executes.
use pullrun.Base.{
  ℕ, Bool, false, ◌||◌, ◌≡◌, refl, sym, ap, ◌∙◌, inl, inr, Option, none, some, List, [], ◌∷◌, ◌++◌,
  append_assoc, append-nil, ◌==◌, if◌then◌else◌, Bool-cases, ==_iff,
}
use pullrun.Base.Words.{Bytes}

-- `arg.replace('\'', "'\\''")`
abbrev pub replace_quotes : Bytes → Bytes
replace_quotes [] = []
replace_quotes (c ∷ s) =
    let rest = replace_quotes s in if c == 39 then 39 ∷ 92 ∷ 39 ∷ 39 ∷ rest else c ∷ rest

unfoldable pub shell_quote : Bytes → Bytes
shell_quote arg = 39 ∷ replace_quotes arg ++ 39 ∷ []

unfoldable pub merge_command : List Bytes → List Bytes → List Bytes
merge_command [] cmd = cmd
merge_command (e ∷ entrypoint) cmd = (e ∷ entrypoint) ++ cmd

abbrev pub default_shell : List Bytes → List Bytes
default_shell [] = (b'/' ∷ b'b' ∷ b'i' ∷ b'n' ∷ b'/' ∷ b's' ∷ b'h' ∷ []) ∷ []
default_shell (arg ∷ args) = arg ∷ args

-- The loop that writes the arguments of `exec`, and the line's end.
unfoldable pub exec_args : List Bytes → Bytes
exec_args [] = 10 ∷ []
exec_args (arg ∷ args) = 32 ∷ shell_quote arg ++ exec_args args

abbrev pub init_content : List Bytes → List Bytes → Bytes
init_content entrypoint cmd =
    (b'#' ∷ b'!' ∷ b'/' ∷ b'b' ∷ b'i' ∷ b'n' ∷ b'/' ∷ b's' ∷ b'h' ∷ 10 ∷ [])
    ++ (b'e' ∷ b'x' ∷ b'e' ∷ b'c' ∷ [])
    ++ exec_args (default_shell (merge_command entrypoint cmd))

-- How a POSIX shell splits the rest of a line into words, on the lines where it does nothing else:
-- between single quotes each character stands for itself, outside of them a backslash quotes the next
-- character, a blank ends a word, and a line feed ends the command. Any other character that may mean
-- something outside of quotes (an operator, an expansion, a pattern, a comment, a double quote, a tab)
-- makes the line one that is not read, and so does a line feed behind a backslash.
abbrev pub specials : Bytes
specials =
    b'|' ∷ b'&' ∷ b';' ∷ b'<' ∷ b'>' ∷ b'(' ∷ b')' ∷ b'{' ∷ b'}' ∷ b'$' ∷ b'`' ∷ 34 ∷ 9 ∷ b'*'
    ∷ b'?' ∷ b'[' ∷ b']' ∷ b'#' ∷ b'~' ∷ b'=' ∷ b'%' ∷ b'!' ∷ []

abbrev pub occurs : ℕ → Bytes → Bool
occurs c [] = false
occurs c (k ∷ ks) = (k == c) || occurs c ks

pub data Mode : Type 0 where
  blank inside quoted escaped : Mode

abbrev pub push_word : Bytes → Option (List Bytes) → Option (List Bytes)
push_word word none = none
push_word word (some words) = some (word ∷ words)

pub sh_words : Mode → Bytes → Bytes → Option (List Bytes)
sh_words blank word [] = some []
sh_words inside word [] = some (word ∷ [])
sh_words quoted word [] = none
sh_words escaped word [] = none
sh_words blank word (c ∷ s) =
    let skipped = sh_words blank [] s in
    let quote = sh_words quoted [] s in
    let escape = sh_words escaped [] s in
    let other = sh_words inside (c ∷ []) s in
    if c == 10
    then some []
    else if c == 32
    then skipped
    else if c == 39
    then quote
    else if c == 92
    then escape
    else if occurs c specials
    then none
    else other
sh_words inside word (c ∷ s) =
    let skipped = sh_words blank [] s in
    let quote = sh_words quoted word s in
    let escape = sh_words escaped word s in
    let other = sh_words inside (word ++ c ∷ []) s in
    if c == 10
    then some (word ∷ [])
    else if c == 32
    then push_word word skipped
    else if c == 39
    then quote
    else if c == 92
    then escape
    else if occurs c specials
    then none
    else other
sh_words quoted word (c ∷ s) =
    let closed = sh_words inside word s in
    let other = sh_words quoted (word ++ c ∷ []) s in if c == 39 then closed else other
sh_words escaped word (c ∷ s) =
    let other = sh_words inside (word ++ c ∷ []) s in if c == 10 then none else other

read-replace_quotes :
    (word s more : Bytes)
    → sh_words quoted word (replace_quotes s ++ 39 ∷ more) ≡ sh_words inside (word ++ s) more
unfolding sh_words
read-replace_quotes word [] more = ap (λ w. sh_words inside w more) (sym (append-nil word))
read-replace_quotes word (c ∷ s) more =
    let grown : sh_words inside ((word ++ c ∷ []) ++ s) more
        ≡ sh_words inside (word ++ c ∷ s) more =
      ap (λ w. sh_words inside w more) (append_assoc word (c ∷ []) s) in
    elim (Bool-cases (c == 39)) [
      | inl y ↦
          let e : c ≡ 39 = (==_iff c 39).0 y in
          let step : sh_words quoted word (39 ∷ 92 ∷ 39 ∷ 39 ∷ replace_quotes s ++ 39 ∷ more)
              ≡ sh_words inside ((word ++ 39 ∷ []) ++ s) more =
            read-replace_quotes (word ++ 39 ∷ []) s more in
          rw y (step ∙ ap (λ b. sh_words inside ((word ++ b ∷ []) ++ s) more) (sym e) ∙ grown)
      | inr n ↦ rw n (rw n (read-replace_quotes (word ++ c ∷ []) s more ∙ grown))
    ]

read_word :
    (arg more : Bytes) → sh_words blank [] (32 ∷ shell_quote arg ++ more) ≡ sh_words inside arg more
unfolding sh_words shell_quote
read_word arg more =
    ap (sh_words quoted []) (append_assoc (replace_quotes arg) (39 ∷ []) more)
    ∙ read-replace_quotes [] arg more

read_after :
    (word : Bytes) (args : List Bytes)
    → sh_words blank [] (exec_args args) ≡ some args
    → sh_words inside word (exec_args args) ≡ some (word ∷ args)
unfolding sh_words exec_args
read_after word [] h = refl
read_after word (arg ∷ args) h = ap (push_word word) h

-- The arguments of `exec` in the init script read as the arguments of the image's command, each as it
-- is, whatever characters are in it, in a shell that splits words and interprets nothing: where a
-- character that a POSIX shell may interpret stood outside of quotes, nothing would be read.
pub sh_words-exec_args : (args : List Bytes) → sh_words blank [] (exec_args args) ≡ some args
unfolding sh_words exec_args
sh_words-exec_args [] = refl
sh_words-exec_args (arg ∷ args) =
    read_word arg (exec_args args) ∙ read_after arg args (sh_words-exec_args args)
