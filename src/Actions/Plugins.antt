-- ===== src/Actions/Plugins.antt =====
-- crates/hub/src/main.rs: the command of an action, the plugins' included (`plugin_command`).
use haive_control.Prelude.{
  Option, none, some, List, Text, text, find, or_else, is_the, Map, lookup, replace_text, nat_eq,
  list_eq,
}
use haive_control.Commands.Args.{shell_arg}
use haive_control.Commands.Table.{os_command}

-- A plugin: its command for each platform.
pub record Plugin : Type 0 where
  pub id : Option Text
  pub cmd : Map Text Text

unfoldable pub plugin_command : List Plugin → Text → Text → Text → Option Text
plugin_command plugins platform id arg = elim (find (λ (p : Plugin). is_the id p.id) plugins) [
  | none ↦ none
  | some p ↦ elim (lookup platform p.cmd) [
    | none ↦ none
    | some tmpl ↦ some (replace_text (text "{{arg}}") (shell_arg arg) tmpl)
  ]
]

-- `os_command(..).or_else(|| plugin_command(..))`.
unfoldable pub any_command : List Plugin → Text → Text → Text → Option Text
unfolding plugin_command
any_command plugins platform kind arg =
    or_else (os_command platform kind arg) (plugin_command plugins platform kind arg)
