-- ===== src/Audit/Summary.antt =====
-- crates/hub/src/main.rs: the text of a session's summary (`build_session_summary`, `cmd_verb`,
-- `fmt_dur`). A `BTreeMap` is kept in the order of its keys.
use haive_control.Prelude.{
  ℕ, ◌+◌, ◌-◌, ◌/◌, ◌%◌, Bool, not, ◌&&◌, ◌||◌, List, [], ◌∷◌, ◌++◌, map, Text, text, take, length,
  retain, ltb, is_empty, starts_with, trim_start_by, trim_end_by, Map, decimal, text_ltb, join,
  ◌==◌, nat_eq, list_eq, if◌then◌else◌,
}
use haive_control.Commands.Readonly.{split_whitespace, first_word, base_from}
use haive_control.Audit.Log.{Event, Session}

unfoldable pub fmt_dur : ℕ → Text
unfolding decimal
fmt_dur secs =
    if ltb secs 60
    then decimal secs ++ text "s"
    else if ltb secs 3600
    then decimal (secs / 60) ++ text "m"
    else decimal (secs / 3600) ++ (text "h " ++ (decimal (secs % 3600 / 60) ++ text "m"))

abbrev pub is_quote : ℕ → Bool
is_quote c = c == 34 || c == 39

unfoldable pub cmd_verb : Text → Text
unfolding split_whitespace first_word base_from
cmd_verb cmd =
    let base = base_from [] (first_word (split_whitespace cmd)) in
    take 32 (trim_end_by is_quote (trim_start_by is_quote base))

-- `*m.entry(k).or_default() += 1` in a `BTreeMap`.
unfoldable pub count_up : Text → Map Text ℕ → Map Text ℕ
unfolding text_ltb
count_up k [] = (k, 1) ∷ []
count_up k ((j, n) ∷ m) =
    let rest = count_up k m in
    if j == k then (j, n + 1) ∷ m else if text_ltb k j then (k, 1) ∷ (j, n) ∷ m else (j, n) ∷ rest

unfoldable pub tally : List Text → Map Text ℕ
unfolding count_up
tally [] = []
tally (k ∷ ks) = count_up k (tally ks)

-- The events that the loop of `build_session_summary` does not skip.
unfoldable pub in_session : Text → Session → Event → Bool
in_session actor s e =
    not
      (not (e.actor == actor) || e.source == text "summary" || ltb e.at s.start || ltb s.last e.at)

abbrev pub names_device : Event → Bool
names_device e =
    not (is_empty e.device)
    && not (e.device == text "—")
    && not (starts_with (text "all (") e.device)

abbrev pub runs_command : Event → Bool
runs_command e =
    (e.action == text "run command" || e.action == text "launch command") && not (is_empty e.detail)

abbrev pub breakdown_of : Text × ℕ → Text
breakdown_of (k, v) = decimal v ++ (text "× " ++ k)

abbrev pub command_of : Text × ℕ → Text
command_of (k, v) = if ltb 1 v then k ++ (text " ×" ++ decimal v) else k

-- The first `cap` of the items, and how many more there are.
unfoldable pub listing : ℕ → List Text → Text
unfolding decimal join
listing cap items =
    let n = length items in
    if ltb cap n
    then join (text ", ") (take cap items) ++ (text " +" ++ (decimal (n - cap) ++ text " more"))
    else join (text ", ") items

abbrev pub plural : ℕ → Text
plural n = if n == 1 then [] else text "s"

unfoldable pub build_session_summary : List Event → Text → Session → Text
unfolding in_session tally fmt_dur cmd_verb listing decimal join
build_session_summary log actor sess =
    let events = retain (in_session actor sess) log in
    let by_action = tally (map (λ (e : Event). e.action) events) in
    let devices = tally (map (λ (e : Event). e.device) (retain names_device events)) in
    let verbs = map (λ (e : Event). cmd_verb e.detail) (retain runs_command events) in
    let cmds = tally (retain (λ v. not (is_empty v)) verbs) in
    let total = length events in
    let dev_count = length devices in
    let breakdown =
      if is_empty by_action
      then text "no recorded actions"
      else join (text ", ") (map breakdown_of by_action) in
    let dev_txt =
      if is_empty devices then text "none" else listing 6 (map (λ (e : Text × ℕ). e.0) devices) in
    let cmd_txt =
      if is_empty cmds
      then []
      else text " Commands: " ++ (listing 8 (map command_of cmds) ++ text ".") in
    let who = if is_empty actor then text "Operator" else actor in
    who
    ++ (text ": "
        ++ (decimal total
            ++ (text " action"
                ++ (plural total
                    ++ (text " over "
                        ++ (fmt_dur (sess.last - sess.start)
                            ++ (text " across "
                                ++ (decimal dev_count
                                    ++ (text " device"
                                        ++ (plural dev_count
                                            ++ (text " — "
                                                ++ (breakdown
                                                    ++ (text "."
                                                        ++ (cmd_txt
                                                            ++ (text " Devices: "
                                                            ++ (dev_txt ++ text "."))))))))))))))))
