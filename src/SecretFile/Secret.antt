-- ===== src/SecretFile/Secret.antt =====
-- crates/hub/src/secretfile.rs: `read_secret`, `write_new_secret` and `write_secret`. Which system
-- call fails is an argument; `tmp` is the name of the temporary file.
use haive_control.Prelude.{
  ℕ, ◌%◌, Bool, true, false, not, ◌||◌, Option, none, some, List, [], ◌∷◌, ◌++◌, map, Text, length,
  take, ltb, is_some, lookup, insert, remove, ◌==◌, nat_eq, list_eq, if◌then◌else◌,
}
use haive_control.SecretFile.Files.{Files, Op, creates, writes, syncs, renames, run}

-- The bits of `mode & 0o077`: any right of the group or of others.
unfoldable pub is_exposed : ℕ → Bool
is_exposed mode = not (mode % 64 == 0)

pub data Read : Type 0 where
  missing : Read
  secret : Text → Read
  unusable : Read

-- `chmod` and `readable` say whether `set_permissions` and `read_to_string` succeed.
unfoldable pub read_secret : Files → Text → Bool → Bool → Files × Read
unfolding is_exposed
read_secret fs path chmod readable = elim (lookup path fs) [
  | none ↦ (fs, missing)
  | some f ↦
      if is_exposed (f.mode % 512)
      then if chmod
        then (
          insert path (record f { mode = 0o600 }) fs,
          if readable then secret f.content else unusable,
        )
        else (fs, unusable)
      else (fs, if readable then secret f.content else unusable)
]

-- The system calls of `replace_secret` up to the rename, for a content that is written in pieces.
unfoldable pub replace_ops : Text → Text → List Text → List Op
replace_ops path tmp pieces =
    (creates tmp ∷ map (writes tmp) pieces) ++ (syncs tmp ∷ renames tmp path ∷ [])

-- Whether it succeeds; `fails` is the system call that fails, if one does. `create_new` fails if the
-- temporary file exists.
unfoldable pub replace_secret : Files → Text → Text → List Text → Option ℕ → Files × Bool
unfolding replace_ops
replace_secret fs path tmp pieces fails = elim fails [
  | none ↦
      if is_some (lookup tmp fs)
      then (remove tmp fs, false)
      else (run fs (replace_ops path tmp pieces), true)
  | some n ↦
      if is_some (lookup tmp fs) || not (ltb n (length (replace_ops path tmp pieces)))
      then (remove tmp fs, false)
      else (remove tmp (run fs (take n (replace_ops path tmp pieces))), false)
]

-- `write_new_secret`, which leaves what it made of the file if it fails.
unfoldable pub write_new_secret : Files → Text → List Text → Option ℕ → Files × Bool
write_new_secret fs path pieces fails =
    let ops = creates path ∷ (map (writes path) pieces ++ (syncs path ∷ [])) in
    if is_some (lookup path fs)
    then (fs, false)
    else elim fails [ none ↦ (run fs ops, true) | some n ↦ (run fs (take n ops), false) ]
