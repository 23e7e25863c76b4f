-- ===== src/Commands/Readonly.antt =====
-- crates/hub/src/main.rs: which commands count as read-only (`is_readonly_cmd`, `ps_readonly`,
-- `ro_stage_ok`).
use haive_control.Prelude.{
  ℕ, Bool, false, not, ◌&&◌, ◌||◌, Option, none, some, List, [], ◌∷◌, Text, text, any, all, reverse,
  ltb, is_empty, is_whitespace, trim, trim_end_by, byte_len, starts_with, strip_prefix, split_from,
  contains_text, to_ascii_lowercase, ◌==◌, nat_eq, list_eq, if◌then◌else◌,
}
use haive_control.Commands.Args.{one_of}

-- `split_whitespace`: the words, with the letters of the current one in front, backwards.
unfoldable pub words_from : Text → Text → List Text
unfolding is_whitespace
words_from acc [] = if is_empty acc then [] else reverse acc ∷ []
words_from acc (c ∷ s) =
    let rest = words_from (if is_whitespace c then [] else c ∷ acc) s in
    if is_whitespace c && not (is_empty acc) then reverse acc ∷ rest else rest

unfoldable pub split_whitespace : Text → List Text
unfolding words_from
split_whitespace s = words_from [] s

-- `rsplit(['/', '\\']).next()`: what stands behind the last slash.
unfoldable pub base_from : Text → Text → Text
base_from acc [] = reverse acc
base_from acc (c ∷ s) = base_from (if c == 47 || c == 92 then [] else c ∷ acc) s

unfoldable pub first_word : List Text → Text
first_word [] = []
first_word (w ∷ ws) = w

unfoldable pub strip_exe : Text → Text
strip_exe s = elim (strip_prefix (reverse (text ".exe")) (reverse s)) [
  | none ↦ s
  | some r ↦ reverse r
]

abbrev pub listed : List Text → Text → Bool
listed xs s = any (λ x. x == s) xs

unfoldable pub contains_any : List Text → Text → Bool
contains_any xs s = any (λ x. contains_text x s) xs

unfoldable pub ps_bad : List Text
ps_bad =
    text ";"
    ∷ text "&"
    ∷ text ">"
    ∷ text "<"
    ∷ text "`"
    ∷ text "$("
    ∷ text "::"
    ∷ text ".delete("
    ∷ text ".kill("
    ∷ text ".stop("
    ∷ text ".start("
    ∷ text ".create("
    ∷ text ".move("
    ∷ text ".remove("
    ∷ text "iex"
    ∷ text "invoke-expression"
    ∷ text "invoke-command"
    ∷ text " icm "
    ∷ text "start-process"
    ∷ text "-encodedcommand"
    ∷ text "-enc "
    ∷ []

unfoldable pub ps_verbs : List Text
ps_verbs =
    text "remove-"
    ∷ text "set-"
    ∷ text "new-"
    ∷ text "stop-"
    ∷ text "start-"
    ∷ text "restart-"
    ∷ text "clear-"
    ∷ text "add-"
    ∷ text "rename-"
    ∷ text "move-"
    ∷ text "copy-"
    ∷ text "disable-"
    ∷ text "enable-"
    ∷ text "install-"
    ∷ text "uninstall-"
    ∷ text "register-"
    ∷ text "unregister-"
    ∷ text "suspend-"
    ∷ text "resume-"
    ∷ text "write-"
    ∷ text "send-"
    ∷ text "block-"
    ∷ text "unblock-"
    ∷ text "reset-"
    ∷ text "update-"
    ∷ text "import-module"
    ∷ text "initialize-"
    ∷ text "mount-"
    ∷ text "dismount-"
    ∷ text "checkpoint-"
    ∷ text "restore-"
    ∷ text "out-file"
    ∷ text "export-"
    ∷ text "invoke-"
    ∷ []

unfoldable pub ps_reads : List Text
ps_reads =
    text "get-"
    ∷ text "measure-"
    ∷ text "test-connection"
    ∷ text "test-netconnection"
    ∷ text "select-string"
    ∷ text "resolve-dnsname"
    ∷ []

unfoldable pub read_only : List Text
read_only =
    text "uname"
    ∷ text "whoami"
    ∷ text "id"
    ∷ text "hostname"
    ∷ text "hostnamectl"
    ∷ text "uptime"
    ∷ text "df"
    ∷ text "free"
    ∷ text "ps"
    ∷ text "top"
    ∷ text "vmstat"
    ∷ text "iostat"
    ∷ text "nproc"
    ∷ text "arch"
    ∷ text "getconf"
    ∷ text "lscpu"
    ∷ text "lsblk"
    ∷ text "lsusb"
    ∷ text "lspci"
    ∷ text "lsof"
    ∷ text "stat"
    ∷ text "file"
    ∷ text "du"
    ∷ text "mount"
    ∷ text "dmesg"
    ∷ text "printenv"
    ∷ text "env"
    ∷ text "date"
    ∷ text "which"
    ∷ text "where"
    ∷ text "echo"
    ∷ text "ip"
    ∷ text "ifconfig"
    ∷ text "ss"
    ∷ text "netstat"
    ∷ text "route"
    ∷ text "arp"
    ∷ text "ping"
    ∷ text "ping6"
    ∷ text "nslookup"
    ∷ text "dig"
    ∷ text "host"
    ∷ text "traceroute"
    ∷ text "tracert"
    ∷ text "journalctl"
    ∷ text "cat"
    ∷ text "head"
    ∷ text "tail"
    ∷ text "ls"
    ∷ text "dir"
    ∷ text "findstr"
    ∷ text "grep"
    ∷ text "egrep"
    ∷ text "sort"
    ∷ text "uniq"
    ∷ text "wc"
    ∷ text "cut"
    ∷ text "tr"
    ∷ text "column"
    ∷ text "select-string"
    ∷ text "systeminfo"
    ∷ text "tasklist"
    ∷ text "ipconfig"
    ∷ text "ver"
    ∷ text "type"
    ∷ text "driverquery"
    ∷ text "gpresult"
    ∷ text "query"
    ∷ []

unfoldable pub ps_readonly : Text → Bool
unfolding contains_any ps_bad ps_verbs ps_reads
ps_readonly cmd =
    let lc = to_ascii_lowercase cmd in
    if not (contains_text (text "-command") lc) && not (contains_text (text " -c ") lc)
    then false
    else if contains_any ps_bad lc
    then false
    else if contains_any ps_verbs lc
    then false
    else contains_any ps_reads lc

-- A tool that reads and writes, with the subcommands that read.
unfoldable pub subcommands : Text → Option (List Text)
subcommands prog =
    if prog == text "systemctl"
    then some (
        text "status"
        ∷ text "is-active"
        ∷ text "is-enabled"
        ∷ text "list-units"
        ∷ text "list-unit-files"
        ∷ text "show"
        ∷ text "cat"
        ∷ [])
    else if prog == text "sc"
    then some (text "query" ∷ text "queryex" ∷ text "qc" ∷ [])
    else if prog == text "reg"
    then some (text "query" ∷ [])
    else if prog == text "dpkg"
    then some (text "-l" ∷ text "--list" ∷ text "-s" ∷ text "--status" ∷ [])
    else if prog == text "apt" || prog == text "apt-get"
    then some (text "list" ∷ text "show" ∷ text "policy" ∷ [])
    else if prog == text "brew"
    then some (text "list" ∷ text "info" ∷ text "config" ∷ [])
    else if prog == text "git"
    then some (
        text "status" ∷ text "log" ∷ text "diff" ∷ text "branch" ∷ text "remote" ∷ text "show" ∷ [])
    else none

unfoldable pub sub_listed : List Text → Option Text → Bool
sub_listed xs none = false
sub_listed xs (some s) = listed xs s

unfoldable pub second_word : List Text → Option Text
second_word [] = none
second_word (w ∷ []) = none
second_word (w ∷ x ∷ ws) = some (to_ascii_lowercase x)

unfoldable pub ends_with : Text → Text → Bool
ends_with suffix s = starts_with (reverse suffix) (reverse s)

unfoldable pub starts_some : Text → Option Text → Bool
starts_some p none = false
starts_some p (some s) = starts_with p s

-- The match on the program.
unfoldable pub program_ok : Text → Option Text → Text → Bool
unfolding sub_listed subcommands ends_with starts_some read_only
program_ok prog sub stage =
    if prog == text "service"
    then ends_with (text "status") (trim_end_by is_whitespace (to_ascii_lowercase stage))
    else if prog == text "wmic"
    then contains_text (text " get") (to_ascii_lowercase stage)
      || contains_text (text "/format") (to_ascii_lowercase stage)
    else if prog == text "rpm"
    then starts_some (text "-q") sub
    else elim (subcommands prog) [ some xs ↦ sub_listed xs sub | none ↦ listed read_only prog ]

unfoldable pub program : Text → Text
unfolding base_from strip_exe
program word = strip_exe (to_ascii_lowercase (base_from [] word))

unfoldable pub ro_stage_ok : Text → Bool
unfolding split_whitespace program second_word
ro_stage_ok stage = elim (split_whitespace stage) [
  | [] ↦ false
  | w ∷ ws ↦ program_ok (program w) (second_word (w ∷ ws)) stage
]

abbrev pub shells : List Text
shells = text "powershell" ∷ text "powershell.exe" ∷ text "pwsh" ∷ text "pwsh.exe" ∷ []

-- The characters a command may not contain, apart from PowerShell's.
abbrev pub chains : ℕ → Bool
chains c = one_of (text ";&><`\n\r") c

unfoldable pub is_readonly_cmd : Text → Bool
unfolding split_whitespace first_word base_from split_from
is_readonly_cmd cmd =
    let c = trim cmd in
    if is_empty c || ltb 600 (byte_len c)
    then false
    else if listed shells (base_from [] (to_ascii_lowercase (first_word (split_whitespace c))))
    then ps_readonly c
    else if any chains c || contains_text (text "$(") c
    then false
    else all (λ stage. ro_stage_ok (trim stage)) (split_from 124 [] c)
