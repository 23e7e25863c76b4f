-- ===== src/Commands/Skeleton.antt =====
-- crates/hub/src/main.rs: the shell characters of a canned action's command (`os_command`).
use haive_control.Prelude.{
  if-case, ℕ, ◌≡◌, refl, sym, ap, subst, ◌∙◌, inl, inr, Bool, true, false, ◌||◌, Option, none, some,
  [], ◌∷◌, ◌++◌, Text, text, retain, any, all, arith, Bool-cases, trim, ◌==◌, ==_iff, nat_eq,
  list_eq, list_beq, ltb, is_empty, byte_len, if◌then◌else◌,
}
use haive_control.Commands.Args.{
  one_of, shell_arg, is_shell_safe, is_ascii_alphanumeric, win_user_arg, is_rejected,
}
use haive_control.Commands.Table.{
  os_command, fixed_command, with_package, install_prefix, uninstall_prefix, net_localgroup,
}

-- The characters that a POSIX shell or cmd.exe does not take as they are.
abbrev pub shell_metas : Text
shell_metas = text "\"&|<>^%`;\n\r\t$()'*?\\{}[]!~#"

-- Those that cmd.exe does not take as they are between double quotes, or that part commands.
abbrev pub quoted_metas : Text
quoted_metas = text "\"&|<>^%`;/\n\r\t"

-- The account of a grant or its end stands between double quotes.
abbrev pub metas_of : Text → Text
metas_of kind =
    if kind == text "grant_admin" || kind == text "revoke_admin" then quoted_metas else shell_metas

-- The sequence of these characters in a command.
abbrev pub skeleton : Text → Text → Text
skeleton metas s = retain (one_of metas) s

pub retain-append : (p : ℕ → Bool) (s u : Text) → retain p (s ++ u) ≡ retain p s ++ retain p u
retain-append p [] u = refl
retain-append p (c ∷ s) u = ground (arith, retain-append p s u)

module _ (f g : ℕ → Bool) (apart : (c : ℕ) → f c ≡ true → g c ≡ false) where
  retain-plain : (s : Text) → retain g (retain f s) ≡ []
  retain-plain [] = refl
  retain-plain (c ∷ s) = ground (arith, retain-plain s, apart c)

  pub all-plain : (s : Text) → all f s ≡ true → retain g s ≡ []
  all-plain [] h = refl
  all-plain (c ∷ s) h = ground (arith, all-plain s, apart c)

any-plain :
    (f g : ℕ → Bool)
    → ((c : ℕ) → f c ≡ false → g c ≡ false)
    → (s : Text) → any f s ≡ false
    → retain g s ≡ []
any-plain f g apart [] h = refl
any-plain f g apart (c ∷ s) h = ground (arith, any-plain f g apart s, apart c)

safe-plain : (c : ℕ) → is_shell_safe c ≡ true → one_of shell_metas c ≡ false
unfolding is_shell_safe is_ascii_alphanumeric
safe-plain c h = ground arith

user-plain : (c : ℕ) → is_rejected c ≡ false → one_of quoted_metas c ≡ false
unfolding is_rejected
user-plain c h = ground arith

-- Two commands, if there are two, with one skeleton.
abbrev IsAlike : Text → Option Text → Option Text → Type 0
IsAlike metas none y = Unit
IsAlike metas (some c) none = Unit
IsAlike metas (some c) (some d) = skeleton metas c ≡ skeleton metas d

IsAlike-refl : (metas : Text) (x : Option Text) → IsAlike metas x x
IsAlike-refl metas none = tt
IsAlike-refl metas (some c) = refl

pub around :
    (metas pre s post : Text)
    → skeleton metas s ≡ []
    → skeleton metas (pre ++ (s ++ post)) ≡ skeleton metas pre ++ skeleton metas post
around metas pre s post h =
    retain-append (one_of metas) pre (s ++ post)
    ∙ ap (λ x. skeleton metas pre ++ x)
        (retain-append (one_of metas) s post ∙ ap (λ x. x ++ skeleton metas post) h)

with_package-IsAlike :
    (x : Option Text) (a b : Text) → IsAlike shell_metas (with_package x a) (with_package x b)
unfolding with_package shell_arg
with_package-IsAlike none a b = tt
with_package-IsAlike (some pre) a b =
    retain-append (one_of shell_metas) pre (shell_arg a)
    ∙ ap (λ x. skeleton shell_metas pre ++ x)
        (retain-plain is_shell_safe (one_of shell_metas) safe-plain a
          ∙ sym (retain-plain is_shell_safe (one_of shell_metas) safe-plain b))
    ∙ sym (retain-append (one_of shell_metas) pre (shell_arg b))

-- An account name in quotes has the quotes' skeleton.
abbrev IsQuoted : Option Text → Type 0
IsQuoted none = Unit
IsQuoted (some u) = skeleton quoted_metas u ≡ text "\"\""

win_user_arg-IsQuoted : (a : Text) → IsQuoted (win_user_arg a)
unfolding win_user_arg
win_user_arg-IsQuoted a =
    if-case IsQuoted (is_empty (trim a) || ltb 104 (byte_len (trim a))) _ _ (λ _. tt)
      (λ _.
        if-case IsQuoted (any is_rejected (trim a)) _ _ (λ _. tt)
          (λ e.
            around quoted_metas (text "\"") (trim a) (text "\"")
              (any-plain is_rejected (one_of quoted_metas) user-plain (trim a) e)))

localgroup-IsAlike :
    (flag : Text) (x y : Option Text)
    → IsQuoted x
    → IsQuoted y
    → IsAlike quoted_metas
        (elim x [
          | none ↦ none
          | some u ↦ some (text "net localgroup Administrators " ++ (u ++ flag))
        ])
        (elim y [
          | none ↦ none
          | some u ↦ some (text "net localgroup Administrators " ++ (u ++ flag))
        ])
localgroup-IsAlike flag none y h k = tt
localgroup-IsAlike flag (some u) none h k = tt
localgroup-IsAlike flag (some u) (some w) h k =
    let pre = text "net localgroup Administrators " in
    let same = λ (x : Text) (q : skeleton quoted_metas x ≡ text "\"\"").
      retain-append (one_of quoted_metas) pre (x ++ flag)
      ∙ ap (λ z. skeleton quoted_metas pre ++ z)
          (retain-append (one_of quoted_metas) x flag
            ∙ ap (λ z. z ++ skeleton quoted_metas flag) q) in
    same u h ∙ sym (same w k)

net_localgroup-IsAlike :
    (platform flag a b : Text)
    → IsAlike quoted_metas (net_localgroup platform flag a) (net_localgroup platform flag b)
unfolding net_localgroup
net_localgroup-IsAlike platform flag a b = elim (Bool-cases (platform == text "windows")) [
  | inl e ↦ rw e (
      localgroup-IsAlike flag (win_user_arg a) (win_user_arg b) (win_user_arg-IsQuoted a)
        (win_user_arg-IsQuoted b))
  | inr e ↦ rw e tt
]

if-IsAlike :
    (metas : Text) (b : Bool) (x x' y y' : Option Text)
    → (b ≡ true → IsAlike metas x y)
    → (b ≡ false → IsAlike metas x' y')
    → IsAlike metas (if b then x else x') (if b then y else y')
if-IsAlike metas true x x' y y' h k = h refl
if-IsAlike metas false x x' y y' h k = k refl

-- The command of a kind that is known.
on_kind :
    (kind known metas : Text) (x y : Option Text)
    → metas_of known ≡ metas
    → IsAlike metas x y
    → (kind == known) ≡ true
    → IsAlike (metas_of kind) x y
on_kind kind known metas x y m h t =
    let same : kind ≡ known = (==_iff kind known).0 t in
    rw same (subst (λ z. IsAlike z x y) (sym m) h)

os_command-IsAlike :
    (platform kind a b : Text)
    → (kind == text "message") ≡ false
    → IsAlike (metas_of kind) (os_command platform kind a) (os_command platform kind b)
unfolding os_command list_beq
os_command-IsAlike platform kind a b h = rw h (
    if-IsAlike (metas_of kind) (kind == text "install") _ _ _ _
      (on_kind kind (text "install") shell_metas _ _ refl
        (with_package-IsAlike (install_prefix platform) a b))
      (λ _.
        if-IsAlike (metas_of kind) (kind == text "uninstall") _ _ _ _
          (on_kind kind (text "uninstall") shell_metas _ _ refl
            (with_package-IsAlike (uninstall_prefix platform) a b))
          (λ _.
            if-IsAlike (metas_of kind) (kind == text "grant_admin") _ _ _ _
              (on_kind kind (text "grant_admin") quoted_metas _ _ refl
                (net_localgroup-IsAlike platform (text " /add") a b))
              (λ _.
                if-IsAlike (metas_of kind) (kind == text "revoke_admin") _ _ _ _
                  (on_kind kind (text "revoke_admin") quoted_metas _ _ refl
                    (net_localgroup-IsAlike platform (text " /delete") a b))
                  (λ _. IsAlike-refl (metas_of kind) (fixed_command platform kind))))))

IsAlike-eq :
    (metas : Text) (x y : Option Text) (c d : Text)
    → x ≡ some c
    → y ≡ some d
    → IsAlike metas x y
    → skeleton metas c ≡ skeleton metas d
IsAlike-eq metas x y c d h k a =
    let b : IsAlike metas (some c) (some d) =
      subst (λ z. IsAlike metas z (some d)) h (subst (IsAlike metas x) k a) in
    b

-- Two arguments of a canned action other than a message give commands with the same shell
-- characters in the same order, on every platform, where both give a command. The shell characters
-- are " & | < > ^ % ` ; $ ( ) ' * ? \ { } [ ] ! ~ # and the tabs and line ends; for an account that
-- is granted or loses admin rights, which stands between double quotes on Windows, they are
-- " & | < > ^ % ` ; / and the tabs and line ends.
pub os_command-skeleton :
    (platform kind a b c d : Text)
    → (kind == text "message") ≡ false
    → os_command platform kind a ≡ some c
    → os_command platform kind b ≡ some d
    → skeleton (metas_of kind) c ≡ skeleton (metas_of kind) d
os_command-skeleton platform kind a b c d n h k =
    IsAlike-eq (metas_of kind) (os_command platform kind a) (os_command platform kind b) c d h k
      (os_command-IsAlike platform kind a b n)
