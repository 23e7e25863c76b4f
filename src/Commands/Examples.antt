-- ===== src/Commands/Examples.antt =====
-- The hub's commands at concrete inputs.
use haive_control.Prelude.{
  split_from, ◌≡◌, refl, true, some, Text, text, list_beq, nat_eq, list_eq, trim, is_whitespace,
  starts_with, strip_prefix, contains_text,
}
use haive_control.Commands.Args.{
  shell_arg, is_shell_safe, is_ascii_alphanumeric, replace_char, sanitize_fix_arg, is_fix_char,
}
use haive_control.Commands.Table.{os_command}
use haive_control.Commands.Fixes.{Fix, fix_command, restart_service}
use haive_control.Commands.Readonly.{
  is_readonly_cmd, ro_stage_ok, program_ok, ps_readonly, words_from, base_from,
}
use haive_control.Commands.Skeleton.{metas_of, shell_metas, skeleton, os_command-skeleton}
use haive_control.Commands.FixSkeleton.{fix_command-skeleton}
use haive_control.Commands.Gate.{IsTame, is_readonly_cmd-IsTame}

install_runs :
    os_command (text "linux") (text "install") (text "vim; reboot")
    ≡ some (text "sudo apt-get install -y vimreboot")
unfolding os_command shell_arg list_beq is_shell_safe is_ascii_alphanumeric
install_runs = refl

os_command-skeleton_example :
    skeleton (metas_of (text "install")) (text "sudo apt-get install -y vimreboot")
    ≡ skeleton (metas_of (text "install")) (text "sudo apt-get install -y git")
unfolding os_command shell_arg list_beq is_shell_safe is_ascii_alphanumeric
os_command-skeleton_example =
    os_command-skeleton (text "linux") (text "install") (text "vim; reboot") (text "git")
      (text "sudo apt-get install -y vimreboot") (text "sudo apt-get install -y git") refl refl refl

abbrev stop_spooler : Fix
stop_spooler = record {
  title = text "Restart the 'spooler' service";
  command = text "net stop \"spooler\" & net start \"spooler\"";
}

abbrev stop_dns : Fix
stop_dns = record {
  title = text "Restart the 'dnscache' service";
  command = text "net stop \"dnscache\" & net start \"dnscache\"";
}

fix_command-skeleton_example :
    skeleton shell_metas stop_spooler.command ≡ skeleton shell_metas stop_dns.command
unfolding fix_command restart_service sanitize_fix_arg list_beq is_whitespace is_fix_char
    is_ascii_alphanumeric trim
fix_command-skeleton_example =
    fix_command-skeleton (text "windows") (text "restart_service") (text " spooler ")
      (text "dnscache") stop_spooler stop_dns refl refl

abbrev pipe : Text
pipe = text " systemctl status sshd | grep Active "

pipe_passes : is_readonly_cmd pipe ≡ true
unfolding is_readonly_cmd ro_stage_ok program_ok list_beq trim is_whitespace starts_with
    strip_prefix contains_text words_from split_from base_from
pipe_passes = refl

is_readonly_cmd-IsTame_example : IsTame (trim pipe)
is_readonly_cmd-IsTame_example = is_readonly_cmd-IsTame pipe pipe_passes

-- `env` runs the program that it is given.
env_passes : is_readonly_cmd (text "env rm -rf /srv") ≡ true
unfolding is_readonly_cmd ro_stage_ok program_ok list_beq trim is_whitespace starts_with
    strip_prefix contains_text words_from split_from base_from
env_passes = refl

-- A line break separates statements in PowerShell.
line_break_passes : is_readonly_cmd (text "powershell -Command \"Get-Date\nrm x\"") ≡ true
unfolding is_readonly_cmd ro_stage_ok program_ok ps_readonly list_beq trim is_whitespace starts_with
    strip_prefix contains_text words_from split_from base_from
line_break_passes = refl

-- The shell of a Linux device runs what a message has in `$(…)`.
message_runs :
    os_command (text "linux") (text "message") (text "$(reboot)")
    ≡ some (text "notify-send \"IT-AI\" \"$(reboot)\"")
unfolding os_command list_beq replace_char
message_runs = refl
