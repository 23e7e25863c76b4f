-- ===== src/Commands/Args.antt =====
-- crates/hub/src/main.rs: what is let through of a command's argument (`shell_arg`, `win_user_arg`,
-- `sanitize_fix_arg`).
use haive_control.Prelude.{
  ℕ, Bool, ◌&&◌, ◌||◌, Option, none, some, ◌++◌, Text, text, map, retain, any, all, leb, ltb,
  is_empty, trim, byte_len, ◌==◌, nat_eq, if◌then◌else◌,
}

-- `str::replace` of one character.
unfoldable pub replace_char : ℕ → ℕ → Text → Text
replace_char from to s = map (λ c. if c == from then to else c) s

unfoldable pub is_ascii_alphanumeric : ℕ → Bool
is_ascii_alphanumeric c =
    (leb 48 c && leb c 57) || (leb 65 c && leb c 90) || (leb 97 c && leb c 122)

abbrev pub one_of : Text → ℕ → Bool
one_of s c = any (λ d. d == c) s

unfoldable pub is_shell_safe : ℕ → Bool
unfolding is_ascii_alphanumeric
is_shell_safe c = is_ascii_alphanumeric c || one_of (text "._+-:/@") c

unfoldable pub shell_arg : Text → Text
unfolding is_shell_safe
shell_arg s = retain is_shell_safe s

-- The characters that `win_user_arg` rejects.
unfoldable pub is_rejected : ℕ → Bool
is_rejected c = one_of (text "\"&|<>^%/`;\n\r\t") c

unfoldable pub win_user_arg : Text → Option Text
unfolding is_rejected
win_user_arg user =
    let u = trim user in
    if is_empty u || ltb 104 (byte_len u)
    then none
    else if any is_rejected u
    then none
    else some (text "\"" ++ (u ++ text "\""))

unfoldable pub is_fix_char : ℕ → Bool
unfolding is_ascii_alphanumeric
is_fix_char c = is_ascii_alphanumeric c || one_of (text " ._-") c

unfoldable pub sanitize_fix_arg : Text → Option Text
unfolding is_fix_char
sanitize_fix_arg arg =
    let a = trim arg in
    if is_empty a || ltb 80 (byte_len a) then none else if all is_fix_char a then some a else none
