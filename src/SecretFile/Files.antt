-- ===== src/SecretFile/Files.antt =====
-- crates/hub/src/secretfile.rs: the files of a directory, as the steps of `replace_secret` and
-- `write_new_secret` change them. A step that succeeds does what the system call promises. A crash
-- keeps the steps on names that were made, in their order, and may do anything to data that no
-- `sync_all` followed.
use haive_control.Prelude.{
  ℕ, Bool, true, false, Option, none, some, List, [], ◌∷◌, ◌++◌, map, Text, Map, lookup, insert,
  remove, modify, nat_eq, list_eq, if◌then◌else◌,
}

pub record File : Type 0 where
  pub mode : ℕ
  pub content : Text
  pub synced : Bool

abbrev pub Files : Type 0
Files = Map Text File

-- `create_new` with mode 0600, `write_all` by its pieces, `rename`.
pub data Op : Type 0 where
  creates : Text → Op
  writes : Text → Text → Op
  syncs : Text → Op
  renames : Text → Text → Op

abbrev pub new_file : File
new_file = record { mode = 0o600; content = []; synced = false }

abbrev pub append : Text → File → File
append piece f = record f { content = f.content ++ piece; synced = false }

abbrev pub sync : File → File
sync f = record f { synced = true }

unfoldable pub moved : Option File → Text → Text → Files → Files
moved none from to fs = fs
moved (some f) from to fs = insert to f (remove from fs)

unfoldable pub step : Files → Op → Files
unfolding moved
step fs (creates path) = insert path new_file fs
step fs (writes path piece) = modify path (append piece) fs
step fs (syncs path) = modify path sync fs
step fs (renames from to) = moved (lookup from fs) from to fs

unfoldable pub run : Files → List Op → Files
unfolding step
run fs [] = fs
run fs (op ∷ ops) = run (step fs op) ops

-- What a crash leaves: `lost` says what becomes of data that is not synced.
abbrev pub settled : (Text → Text → Text) → Text × File → Text × File
settled lost (path, f) = (path, if f.synced then f else record f { content = lost path f.content })

unfoldable pub crash : (Text → Text → Text) → Files → Files
crash lost fs = map (settled lost) fs
