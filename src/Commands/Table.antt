-- ===== src/Commands/Table.antt =====
-- crates/hub/src/main.rs, `os_command`: the commands of the canned actions, by kind and platform.
use haive_control.Prelude.{
  Bool, true, ◌&&◌, Option, none, some, List, [], ◌∷◌, ◌++◌, Text, text, find, ◌==◌, nat_eq,
  list_eq, if◌then◌else◌,
}
use haive_control.Commands.Args.{shell_arg, win_user_arg, replace_char}

-- An arm of the match whose command is fixed; `none` is the platform `_`.
pub record Arm : Type 0 where
  pub kind : Text
  pub platform : Option Text
  pub command : Text

abbrev arm_on : Text → Text → Text → Arm
arm_on kind platform command = record { kind = kind; platform = some platform; command = command }

abbrev arm_any : Text → Text → Arm
arm_any kind command = record { kind = kind; platform = none; command = command }

unfoldable pub on_platform : Option Text → Text → Bool
on_platform none platform = true
on_platform (some p) platform = p == platform

abbrev pub fits : Text → Text → Arm → Bool
fits kind platform a = a.kind == kind && on_platform a.platform platform

unfoldable pub arms : List Arm
arms =
    arm_on (text "hardware") (text "windows") (text "systeminfo")
    ∷ arm_on (text "hardware") (text "macos") (text "system_profiler SPHardwareDataType")
    ∷ arm_on (text "hardware") (text "linux") (text "lscpu; echo; free -h; echo; lsblk")
    ∷ arm_on (text "av") (text "windows") (text "it-ai:probe/av")
    ∷ arm_on (text "av") (text "macos") (
        text
          "echo 'Gatekeeper:'; spctl --status; echo 'XProtect present:'; ls /Library/Apple/System/Library/CoreServices/XProtect.bundle >/dev/null 2>&1 && echo yes || echo no")
    ∷ arm_on (text "av") (text "linux")
        (text "clamscan --version 2>/dev/null || echo 'no clamav installed'")
    ∷ arm_on (text "encryption") (text "windows") (text "it-ai:probe/encryption")
    ∷ arm_on (text "encryption") (text "macos") (text "fdesetup status")
    ∷ arm_on (text "encryption") (text "linux")
        (text "lsblk -o NAME,FSTYPE,MOUNTPOINT | grep -i crypt || echo 'no LUKS volumes detected'")
    ∷ arm_on (text "firewall") (text "windows") (text "it-ai:probe/firewall")
    ∷ arm_on (text "firewall") (text "macos")
        (text "/usr/libexec/ApplicationFirewall/socketfilterfw --getglobalstate")
    ∷ arm_on (text "firewall") (text "linux") (
        text
          "ufw status 2>/dev/null || echo \"ufw is $(systemctl is-active ufw 2>/dev/null || echo not-installed)\"")
    ∷ arm_on (text "firewall_on") (text "windows")
        (text "netsh advfirewall set allprofiles state on")
    ∷ arm_on (text "firewall_on") (text "macos")
        (text "sudo /usr/libexec/ApplicationFirewall/socketfilterfw --setglobalstate on")
    ∷ arm_on (text "firewall_on") (text "linux") (text "sudo ufw enable")
    ∷ arm_on (text "firewall_off") (text "windows")
        (text "netsh advfirewall set allprofiles state off")
    ∷ arm_on (text "firewall_off") (text "macos")
        (text "sudo /usr/libexec/ApplicationFirewall/socketfilterfw --setglobalstate off")
    ∷ arm_on (text "firewall_off") (text "linux") (text "sudo ufw disable")
    ∷ arm_on (text "processes") (text "windows") (text "tasklist")
    ∷ arm_any (text "processes") (text "ps aux 2>/dev/null | sort -rk3 | head -25")
    ∷ arm_on (text "services") (text "windows") (text "it-ai:probe/services")
    ∷ arm_on (text "services") (text "macos") (text "launchctl list | head -40")
    ∷ arm_on (text "services") (text "linux")
        (text "systemctl list-units --type=service --state=running --no-pager | head -40")
    ∷ arm_on (text "network") (text "linux") (text "ip neigh")
    ∷ arm_any (text "network") (text "arp -a")
    ∷ arm_on (text "packages") (text "windows") (text "winget list")
    ∷ arm_on (text "packages") (text "macos")
        (text "brew list --versions 2>/dev/null || ls /Applications")
    ∷ arm_on (text "packages") (text "linux")
        (text "apt list --installed 2>/dev/null | head -60 || dpkg -l | head -60")
    ∷ arm_on (text "reboot") (text "windows") (text "shutdown /r /t 5")
    ∷ arm_any (text "reboot") (text "sudo shutdown -r +1 2>/dev/null || shutdown -r +1")
    ∷ arm_on (text "shutdown") (text "windows") (text "shutdown /s /t 5")
    ∷ arm_any (text "shutdown") (text "sudo shutdown -h +1 2>/dev/null || shutdown -h +1")
    ∷ arm_on (text "sleep") (text "windows")
        (text "rundll32.exe powrprof.dll,SetSuspendState 0,1,0")
    ∷ arm_on (text "sleep") (text "macos") (text "pmset sleepnow")
    ∷ arm_on (text "sleep") (text "linux") (text "systemctl suspend")
    ∷ arm_on (text "logoff") (text "windows") (text "shutdown /l")
    ∷ arm_on (text "logoff") (text "macos")
        (text "osascript -e 'tell application \"System Events\" to log out'")
    ∷ arm_on (text "logoff") (text "linux") (text "loginctl terminate-user \"$USER\"")
    ∷ arm_on (text "usb_lock") (text "windows") (
        text
          "reg add \"HKLM\\SYSTEM\\CurrentControlSet\\Services\\USBSTOR\" /v Start /t REG_DWORD /d 4 /f")
    ∷ arm_on (text "usb_unlock") (text "windows") (
        text
          "reg add \"HKLM\\SYSTEM\\CurrentControlSet\\Services\\USBSTOR\" /v Start /t REG_DWORD /d 3 /f")
    ∷ arm_on (text "updates") (text "windows") (text "winget upgrade")
    ∷ arm_on (text "updates") (text "macos") (text "softwareupdate -l")
    ∷ arm_on (text "updates") (text "linux") (text "apt list --upgradable 2>/dev/null")
    ∷ arm_on (text "update_all") (text "windows") (
        text "winget upgrade --all --silent --accept-package-agreements --accept-source-agreements")
    ∷ arm_on (text "update_all") (text "macos") (text "softwareupdate -ia")
    ∷ arm_on (text "update_all") (text "linux")
        (text "sudo apt-get update && sudo apt-get upgrade -y")
    ∷ arm_on (text "os_updates") (text "windows") (text "it-ai:os-updates/check")
    ∷ arm_on (text "os_updates") (text "macos") (text "softwareupdate -l")
    ∷ arm_on (text "os_updates") (text "linux") (text "apt list --upgradable 2>/dev/null")
    ∷ arm_on (text "os_update_all") (text "windows") (text "it-ai:os-updates/install")
    ∷ arm_on (text "os_update_all") (text "macos") (text "softwareupdate -ia")
    ∷ arm_on (text "os_update_all") (text "linux")
        (text "sudo apt-get update && sudo apt-get upgrade -y")
    ∷ arm_on (text "power_report") (text "windows") (
        text
          "powercfg /getactivescheme & powercfg /batteryreport /output %TEMP%\\it-ai-battery.html & echo saved to %TEMP%\\it-ai-battery.html")
    ∷ arm_on (text "power_report") (text "macos") (text "pmset -g custom | head -25")
    ∷ arm_on (text "power_report") (text "linux")
        (text "upower -d 2>/dev/null | head -30 || echo 'upower not present'")
    ∷ []

unfoldable pub fixed_command : Text → Text → Option Text
unfolding arms
fixed_command platform kind = elim (find (fits kind platform) arms) [
  | none ↦ none
  | some a ↦ some a.command
]

-- `arg.replace('"', "'")`, and on macOS also `'` by a typographic one.
unfoldable pub message : Text → Text → Option Text
unfolding replace_char
message platform arg =
    if platform == text "windows"
    then some (text "msg * \"" ++ (replace_char 34 39 arg ++ text "\""))
    else if platform == text "macos"
    then some (
        text "osascript -e 'display dialog \""
        ++ (replace_char 39 0x2019 (replace_char 34 39 arg)
            ++ text "\" buttons {\"OK\"} with title \"IT-AI\"'"))
    else if platform == text "linux"
    then some (text "notify-send \"IT-AI\" \"" ++ (replace_char 34 39 arg ++ text "\""))
    else none

unfoldable pub install_prefix : Text → Option Text
install_prefix platform =
    if platform == text "windows"
    then some
        (text "winget install --silent --accept-package-agreements --accept-source-agreements ")
    else if platform == text "macos"
    then some (text "brew install ")
    else if platform == text "linux"
    then some (text "sudo apt-get install -y ")
    else none

unfoldable pub uninstall_prefix : Text → Option Text
uninstall_prefix platform =
    if platform == text "windows"
    then some (text "winget uninstall --silent ")
    else if platform == text "macos"
    then some (text "brew uninstall ")
    else if platform == text "linux"
    then some (text "sudo apt-get remove -y ")
    else none

unfoldable pub with_package : Option Text → Text → Option Text
with_package none arg = none
with_package (some prefix) arg = some (prefix ++ shell_arg arg)

unfoldable pub net_localgroup : Text → Text → Text → Option Text
net_localgroup platform flag arg =
    if platform == text "windows"
    then elim (win_user_arg arg) [
      | none ↦ none
      | some u ↦ some (text "net localgroup Administrators " ++ (u ++ flag))
    ]
    else none

unfoldable pub os_command : Text → Text → Text → Option Text
unfolding message with_package install_prefix uninstall_prefix net_localgroup
os_command platform kind arg =
    if kind == text "message"
    then message platform arg
    else if kind == text "install"
    then with_package (install_prefix platform) arg
    else if kind == text "uninstall"
    then with_package (uninstall_prefix platform) arg
    else if kind == text "grant_admin"
    then net_localgroup platform (text " /add") arg
    else if kind == text "revoke_admin"
    then net_localgroup platform (text " /delete") arg
    else fixed_command platform kind
