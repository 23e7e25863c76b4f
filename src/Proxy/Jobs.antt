-- ===== src/Proxy/Jobs.antt =====
-- crates/hub/src/jobs.rs: the paths of requests about a job (`valid_id`, `logs_path`, `stop`).
use haive_control.Prelude.{
  Bool, not, ◌&&◌, ◌||◌, Option, none, some, [], ◌++◌, Text, text, all, is_empty, leb, byte_len,
  unwrap_or, filter_some, parse_u64, decimal, if◌then◌else◌,
}

unfoldable pub valid_id : Text → Bool
valid_id id =
    not (is_empty id)
    && (leb (byte_len id) 64 && all (λ c. (leb 97 c && leb c 122) || (leb 48 c && leb c 57)) id)

-- `&key=n` for a parameter that is there, or `none` for one that is no number.
unfoldable pub numbered : Text → Option Text → Option Text
unfolding parse_u64 decimal
numbered key v = elim (filter_some (λ s. not (is_empty s)) v) [
  | none ↦ some []
  | some s ↦ elim (parse_u64 s) [
    | none ↦ none
    | some n ↦ some (text "&" ++ (key ++ (text "=" ++ decimal n)))
  ]
]

unfoldable pub logs_path : (Text → Option Text) → Option Text
unfolding valid_id numbered
logs_path param =
    let id = unwrap_or [] (param (text "id")) in
    if not (valid_id id) then none else elim (numbered (text "offset") (param (text "offset"))) [
      | none ↦ none
      | some offset ↦ elim (numbered (text "max") (param (text "max"))) [
        | none ↦ none
        | some max ↦ some (text "/jobs/logs?id=" ++ (id ++ (offset ++ max)))
      ]
    ]

unfoldable pub stop_path : (Text → Option Text) → Option Text
unfolding valid_id
stop_path param =
    let id = unwrap_or [] (param (text "id")) in
    if not (valid_id id) then none else some (text "/jobs/stop?id=" ++ id)
