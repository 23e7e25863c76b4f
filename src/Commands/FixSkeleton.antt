-- ===== src/Commands/FixSkeleton.antt =====
-- crates/hub/src/main.rs: the shell characters of a fix's command (`fix_command`).
use haive_control.Prelude.{
  if-case, ℕ, ◌≡◌, refl, sym, ap, subst, ◌∙◌, Bool, true, false, ◌||◌, Option, none, some, [], ◌++◌,
  Text, text, all, arith, trim, ◌==◌, nat_eq, list_eq, ltb, is_empty, byte_len, if◌then◌else◌,
}
use haive_control.Commands.Args.{one_of, is_ascii_alphanumeric, sanitize_fix_arg, is_fix_char}
use haive_control.Commands.Fixes.{
  Fix, fix_command, flush_dns, with_arg, restart_service, kill_process, windows_fix,
}
use haive_control.Commands.Skeleton.{shell_metas, skeleton, retain-append, all-plain, around}

fix-plain : (c : ℕ) → is_fix_char c ≡ true → one_of shell_metas c ≡ false
unfolding is_fix_char is_ascii_alphanumeric
fix-plain c h = ground arith

IsFixAlike : Option Fix → Option Fix → Type 0
IsFixAlike none y = Unit
IsFixAlike (some c) none = Unit
IsFixAlike (some c) (some d) = skeleton shell_metas c.command ≡ skeleton shell_metas d.command

IsFixAlike-refl : (x : Option Fix) → IsFixAlike x x
unfolding IsFixAlike
IsFixAlike-refl none = tt
IsFixAlike-refl (some c) = refl

twice :
    (pre mid post a : Text)
    → skeleton shell_metas a ≡ []
    → skeleton shell_metas (pre ++ (a ++ (mid ++ (a ++ post))))
      ≡ skeleton shell_metas pre ++ (skeleton shell_metas mid ++ skeleton shell_metas post)
twice pre mid post a h =
    around shell_metas pre a (mid ++ (a ++ post)) h
    ∙ ap (λ x. skeleton shell_metas pre ++ x) (around shell_metas mid a post h)

last :
    (pre a b : Text)
    → skeleton shell_metas a ≡ []
    → skeleton shell_metas b ≡ []
    → skeleton shell_metas (pre ++ a) ≡ skeleton shell_metas (pre ++ b)
last pre a b h k =
    retain-append (one_of shell_metas) pre a
    ∙ ap (λ x. skeleton shell_metas pre ++ x) (h ∙ sym k)
    ∙ sym (retain-append (one_of shell_metas) pre b)

if-IsFixAlike :
    (b : Bool) (x x' y y' : Option Fix)
    → IsFixAlike x y
    → (b ≡ false → IsFixAlike x' y')
    → IsFixAlike (if b then x else x') (if b then y else y')
if-IsFixAlike true x x' y y' h k = h
if-IsFixAlike false x x' y y' h k = k refl

module _ (platform a b : Text) (h : skeleton shell_metas a ≡ [])
    (k : skeleton shell_metas b ≡ []) where
  restart_service-IsFixAlike : IsFixAlike (restart_service platform a) (restart_service platform b)
  unfolding IsFixAlike restart_service
  restart_service-IsFixAlike =
      if-IsFixAlike (platform == text "windows") _ _ _ _
        (twice (text "net stop \"") (text "\" & net start \"") (text "\"") a h
          ∙ sym (twice (text "net stop \"") (text "\" & net start \"") (text "\"") b k))
        (λ _.
          if-IsFixAlike (platform == text "linux") _ _ _ _
            (last (text "sudo systemctl restart ") a b h k)
            (λ _.
              if-IsFixAlike (platform == text "macos") _ _ _ _
                (last (text "sudo launchctl kickstart -k system/") a b h k) (λ _. tt)))

  kill_process-IsFixAlike : IsFixAlike (kill_process platform a) (kill_process platform b)
  unfolding IsFixAlike kill_process
  kill_process-IsFixAlike =
      if-IsFixAlike (platform == text "windows") _ _ _ _
        (around shell_metas (text "taskkill /F /IM \"") a (text "\"") h
          ∙ sym (around shell_metas (text "taskkill /F /IM \"") b (text "\"") k))
        (λ _.
          if-IsFixAlike (platform == text "linux" || platform == text "macos") _ _ _ _
            (around shell_metas (text "pkill -f \"") a (text "\"") h
              ∙ sym (around shell_metas (text "pkill -f \"") b (text "\"") k))
            (λ _. tt))

-- A sanitized argument has no shell characters.
abbrev IsPlain : Option Text → Type 0
IsPlain none = Unit
IsPlain (some a) = skeleton shell_metas a ≡ []

sanitize_fix_arg-IsPlain : (a : Text) → IsPlain (sanitize_fix_arg a)
unfolding sanitize_fix_arg
sanitize_fix_arg-IsPlain a =
    if-case IsPlain (is_empty (trim a) || ltb 80 (byte_len (trim a))) _ _ (λ _. tt)
      (λ _.
        if-case IsPlain (all is_fix_char (trim a)) _ _
          (λ e. all-plain is_fix_char (one_of shell_metas) fix-plain (trim a) e) (λ _. tt))

sanitized-IsFixAlike :
    (f : Text → Option Fix) (x y : Option Text)
    → ((a b : Text)
        → skeleton shell_metas a ≡ []
        → skeleton shell_metas b ≡ []
        → IsFixAlike (f a) (f b))
    → IsPlain x
    → IsPlain y
    → IsFixAlike (elim x [ none ↦ none | some a ↦ f a ]) (elim y [ none ↦ none | some a ↦ f a ])
unfolding IsFixAlike
sanitized-IsFixAlike f none y g h k = tt
sanitized-IsFixAlike f (some a) (some b) g h k = g a b h k
sanitized-IsFixAlike f (some a) none g h k = elim (f a) as (λ z. IsFixAlike z none) [
  | none ↦ tt
  | some w ↦ tt
]

with_arg-IsFixAlike :
    (f : Text → Option Fix) (a b : Text)
    → ((a b : Text)
        → skeleton shell_metas a ≡ []
        → skeleton shell_metas b ≡ []
        → IsFixAlike (f a) (f b))
    → IsFixAlike (with_arg f a) (with_arg f b)
unfolding with_arg
with_arg-IsFixAlike f a b g =
    sanitized-IsFixAlike f (sanitize_fix_arg a) (sanitize_fix_arg b) g (sanitize_fix_arg-IsPlain a)
      (sanitize_fix_arg-IsPlain b)

fix_command-IsFixAlike :
    (platform kind a b : Text)
    → IsFixAlike (fix_command platform kind a) (fix_command platform kind b)
unfolding fix_command
fix_command-IsFixAlike platform kind a b =
    if-IsFixAlike (kind == text "flush_dns") _ _ _ _ (IsFixAlike-refl (flush_dns platform)) (λ _.
      if-IsFixAlike (kind == text "restart_service") _ _ _ _
        (with_arg-IsFixAlike (restart_service platform) a b (restart_service-IsFixAlike platform))
        (λ _.
          if-IsFixAlike (kind == text "kill_process") _ _ _ _
            (with_arg-IsFixAlike (kill_process platform) a b (kill_process-IsFixAlike platform))
            (λ _. IsFixAlike-refl (windows_fix platform kind))))

-- Two arguments of a fix give commands with the same shell characters in the same order, where both
-- are let through: the characters " & | < > ^ % ` ; $ ( ) ' * ? \ { } [ ] ! ~ # and the tabs and line
-- ends.
pub fix_command-skeleton :
    (platform kind a b : Text) (c d : Fix)
    → fix_command platform kind a ≡ some c
    → fix_command platform kind b ≡ some d
    → skeleton shell_metas c.command ≡ skeleton shell_metas d.command
unfolding IsFixAlike
fix_command-skeleton platform kind a b c d h k =
    let both = fix_command-IsFixAlike platform kind a b in
    subst (λ z. IsFixAlike z (some d)) h (subst (IsFixAlike (fix_command platform kind a)) k both)
