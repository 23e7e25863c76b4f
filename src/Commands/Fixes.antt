-- ===== src/Commands/Fixes.antt =====
-- crates/hub/src/main.rs: the fixes (`fix_command`), with `fix_meta` and `action_risk`.
use haive_control.Prelude.{
  Bool, true, false, ◌||◌, Option, none, some, List, [], ◌∷◌, ◌++◌, Text, text, find, any, ◌==◌,
  nat_eq, list_eq, if◌then◌else◌,
}
use haive_control.Commands.Args.{sanitize_fix_arg}

abbrev is_kind : Text → List Text → Bool
is_kind kind ks = any (λ k. k == kind) ks

-- The tier, and whether the state comes back on its own.
unfoldable pub fix_meta : Text → Text × Bool
fix_meta kind =
    if is_kind kind (text "flush_dns" ∷ text "restart_explorer" ∷ [])
    then (text "safe", true)
    else if is_kind kind (text "clear_temp" ∷ text "empty_recycle_bin" ∷ [])
    then (text "safe", false)
    else if is_kind kind (
        text "restart_service"
        ∷ text "restart_audio"
        ∷ text "renew_ip"
        ∷ text "reset_windows_update"
        ∷ text "sfc_scan"
        ∷ text "dism_repair"
        ∷ [])
    then (text "impactful", true)
    else (text "impactful", false)

unfoldable pub action_risk : Text → Text × Bool
action_risk kind =
    if is_kind kind (text "flush_dns" ∷ text "clear_temp" ∷ text "empty_recycle_bin" ∷ [])
    then (text "low", true)
    else if is_kind kind (
        text "restart_service"
        ∷ text "kill_process"
        ∷ text "reboot"
        ∷ text "shutdown"
        ∷ text "logoff"
        ∷ text "sleep"
        ∷ text "update_all"
        ∷ [])
    then (text "medium", true)
    else if is_kind kind (text "firewall_off" ∷ text "usb_unlock" ∷ text "custom" ∷ [])
    then (text "high", false)
    else (text "medium", true)

-- A fix: its title and its command.
pub record Fix : Type 0 where
  pub title : Text
  pub command : Text

abbrev fix : Text → Text → Option Fix
fix title command = some (record { title = title; command = command })

unfoldable pub flush_dns : Text → Option Fix
flush_dns platform =
    if platform == text "windows"
    then fix (text "Flush the DNS cache") (text "ipconfig /flushdns")
    else if platform == text "linux"
    then fix (text "Flush the DNS cache") (
        text
          "resolvectl flush-caches || systemd-resolve --flush-caches || echo 'no systemd-resolved'")
    else if platform == text "macos"
    then fix (text "Flush the DNS cache")
        (text "sudo dscacheutil -flushcache; sudo killall -HUP mDNSResponder")
    else none

unfoldable pub restart_service : Text → Text → Option Fix
restart_service platform a =
    if platform == text "windows"
    then fix (text "Restart the '" ++ (a ++ text "' service"))
        (text "net stop \"" ++ (a ++ (text "\" & net start \"" ++ (a ++ text "\""))))
    else if platform == text "linux"
    then fix (text "Restart the " ++ (a ++ text " service")) (text "sudo systemctl restart " ++ a)
    else if platform == text "macos"
    then fix (text "Restart " ++ a) (text "sudo launchctl kickstart -k system/" ++ a)
    else none

unfoldable pub kill_process : Text → Text → Option Fix
kill_process platform a =
    if platform == text "windows"
    then fix (text "Force-quit " ++ a) (text "taskkill /F /IM \"" ++ (a ++ text "\""))
    else if platform == text "linux" || platform == text "macos"
    then fix (text "Force-quit " ++ a) (text "pkill -f \"" ++ (a ++ text "\""))
    else none

-- The fixes that only Windows has, by kind.
unfoldable pub windows_fixes : List (Text × Fix)
windows_fixes =
    (
      text "clear_temp",
      record {
        title = text "Clear your temporary files";
        command = text "del /q /f /s \"%TEMP%\\*\" >nul 2>&1 & echo done";
      },
    )
    ∷ (
      text "empty_recycle_bin",
      record {
        title = text "Empty the Recycle Bin";
        command = text "it-ai:probe/empty_recycle_bin";
      },
    )
    ∷ (
      text "restart_explorer",
      record {
        title = text "Restart Windows Explorer (taskbar & desktop)";
        command = text "taskkill /f /im explorer.exe & start explorer.exe";
      },
    )
    ∷ (
      text "restart_audio",
      record {
        title = text "Restart the Windows audio service";
        command = text "net stop audiosrv & net start audiosrv";
      },
    )
    ∷ (
      text "restart_print_spooler",
      record {
        title = text "Restart the print spooler and clear the stuck print queue";
        command =
            text
              "net stop spooler & del /q /f \"%systemroot%\\System32\\spool\\PRINTERS\\*\" 2>nul & net start spooler";
      },
    )
    ∷ (
      text "renew_ip",
      record {
        title = text "Release and renew the network (IP) address";
        command = text "ipconfig /release & ipconfig /renew";
      },
    )
    ∷ (
      text "reset_winsock",
      record {
        title = text "Reset the Windows network stack (Winsock) — needs a reboot to finish";
        command = text "netsh winsock reset";
      },
    )
    ∷ (
      text "reset_windows_update",
      record {
        title = text "Reset Windows Update (stop services, rename the update cache, restart)";
        command =
            text
              "net stop wuauserv & net stop bits & ren \"%systemroot%\\SoftwareDistribution\" SoftwareDistribution.old & net start bits & net start wuauserv";
      },
    )
    ∷ (
      text "sfc_scan",
      record {
        title =
            text "Repair Windows system files with System File Checker (can take several minutes)";
        command = text "sfc /scannow";
      },
    )
    ∷ (
      text "dism_repair",
      record {
        title = text "Repair the Windows system image with DISM (can take several minutes)";
        command = text "DISM /Online /Cleanup-Image /RestoreHealth";
      },
    )
    ∷ []

unfoldable pub windows_fix : Text → Text → Option Fix
unfolding windows_fixes
windows_fix platform kind =
    if platform == text "windows"
    then elim (find (λ e. e.0 == kind) windows_fixes) [ none ↦ none | some e ↦ some e.1 ]
    else none

unfoldable pub with_arg : (Text → Option Fix) → Text → Option Fix
unfolding sanitize_fix_arg
with_arg f arg = elim (sanitize_fix_arg arg) [ none ↦ none | some a ↦ f a ]

unfoldable pub fix_command : Text → Text → Text → Option Fix
unfolding flush_dns with_arg windows_fix
fix_command platform kind arg =
    if kind == text "flush_dns"
    then flush_dns platform
    else if kind == text "restart_service"
    then with_arg (restart_service platform) arg
    else if kind == text "kill_process"
    then with_arg (kill_process platform) arg
    else windows_fix platform kind
