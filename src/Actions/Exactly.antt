-- ===== src/Actions/Exactly.antt =====
-- crates/hub/src/main.rs: what becomes of a queued action (`queue_action`, `drain_queued_actions`).
use haive_control.Prelude.{
  append_assoc, append_nil, if-case, ◌≡◌, refl, sym, ap, ◌∙◌, inl, inr, true, List, [], ◌∷◌, ◌++◌,
  map, Text, retain, is_empty, Map, insert, remove, lookup-insert, lookup-remove, Bool-cases, ◌==◌,
  ==_iff, nat_eq, list_eq, if◌then◌else◌,
}
use haive_control.Actions.Queue.{
  Queue, save_queued, load_queued, pending, queue_action, drain_queued_actions, Step, queues,
  drains, restarts, step, run,
}

-- The commands of a device among those handed out; the commands that the steps queue for it.
unfoldable pub commands_of : Text → List (Text × Text) → List Text
commands_of key out = map (λ (e : Text × Text). e.1) (retain (λ (e : Text × Text). e.0 == key) out)

unfoldable pub queued_by : Text → List Step → List Text
queued_by key [] = []
queued_by key (queues k cmd ∷ steps) =
    let rest = queued_by key steps in if k == key then cmd ∷ rest else rest
queued_by key (drains k ∷ steps) = queued_by key steps
queued_by key (restarts ∷ steps) = queued_by key steps

-- The file has what the queue has.
abbrev pub IsSaved : Queue → Type 0
IsSaved q = (key : Text) → pending q.disk key ≡ pending q.queued key

commands_of-append :
    (key : Text) (xs ys : List (Text × Text))
    → commands_of key (xs ++ ys) ≡ commands_of key xs ++ commands_of key ys
unfolding commands_of
commands_of-append key [] ys = refl
commands_of-append key ((k, c) ∷ xs) ys = elim (Bool-cases (k == key)) [
  | inl t ↦ rw t (ap (λ l. c ∷ l) (commands_of-append key xs ys))
  | inr n ↦ rw n (commands_of-append key xs ys)
]

commands_of-tagged :
    (key k : Text) (cmds : List Text)
    → commands_of key (map (λ c. (k, c)) cmds) ≡ (if k == key then cmds else [])
unfolding commands_of
commands_of-tagged key k [] = if-case (λ x. [] ≡ x) (k == key) [] [] (λ _. refl) (λ _. refl)
commands_of-tagged key k (c ∷ cmds) = elim (Bool-cases (k == key)) [
  | inl t ↦
      let ih : commands_of key (map (λ c. (k, c)) cmds) ≡ cmds =
        commands_of-tagged key k cmds ∙ rw t refl in
      rw t (ap (λ l. c ∷ l) ih)
  | inr n ↦
      let ih : commands_of key (map (λ c. (k, c)) cmds) ≡ [] =
        commands_of-tagged key k cmds ∙ rw n refl in
      rw n ih
]

pending-insert :
    (m : Map Text (List Text)) (k key : Text) (cmds : List Text)
    → pending (insert k cmds m) key ≡ (if k == key then cmds else pending m key)
unfolding pending
pending-insert m k key cmds = elim (Bool-cases (k == key)) [
  | inl t ↦ rw lookup-insert (rw t refl)
  | inr n ↦ rw lookup-insert (rw n refl)
]

pending-remove :
    (m : Map Text (List Text)) (k key : Text)
    → pending (remove k m) key ≡ (if k == key then [] else pending m key)
unfolding pending
pending-remove m k key = elim (Bool-cases (k == key)) [
  | inl t ↦ rw lookup-remove (rw t refl)
  | inr n ↦ rw lookup-remove (rw n refl)
]

is_empty-[] : (xs : List Text) → is_empty xs ≡ true → xs ≡ []
is_empty-[] [] e = refl
is_empty-[] (x ∷ xs) e = absurd (cc)

drain-IsSaved : (q : Queue) (k : Text) → IsSaved q → IsSaved (drain_queued_actions q k).0
unfolding drain_queued_actions save_queued
drain-IsSaved q k s =
    if-case IsSaved (is_empty (pending q.queued k)) _ _
      (λ e key. rw pending-remove (elim (Bool-cases (k == key)) [
        | inl t ↦
            let same : k ≡ key = (==_iff k key).0 t in
            rw t (
              s key
              ∙ (ap (λ x. pending q.queued x) (sym same) ∙ is_empty-[] (pending q.queued k) e))
        | inr n ↦ rw n (s key)
      ]))
      (λ _ key. refl)

step-IsSaved : (q : Queue) (x : Step) → IsSaved q → IsSaved (step q x).0
unfolding step queue_action save_queued load_queued
step-IsSaved q (queues k cmd) s = λ key. refl
step-IsSaved q (drains k) s = drain-IsSaved q k s
step-IsSaved q restarts s = λ key. refl

drain-pending :
    (q : Queue) (k key : Text)
    → pending (drain_queued_actions q k).0.queued key
      ≡ (if k == key then [] else pending q.queued key)
unfolding drain_queued_actions save_queued
drain-pending q k key =
    if-case (λ (x : Queue). pending x.queued key ≡ (if k == key then [] else pending q.queued key))
      (is_empty (pending q.queued k)) _ _ (λ _. pending-remove q.queued k key)
      (λ _. pending-remove q.queued k key)

-- One step hands out from the front, and queues behind.
step-exactly :
    (q : Queue) (x : Step) (key : Text)
    → IsSaved q
    → commands_of key (step q x).1 ++ pending (step q x).0.queued key
      ≡ pending q.queued key ++ queued_by key (x ∷ [])
unfolding step queue_action save_queued load_queued queued_by commands_of
step-exactly q (queues k cmd) key s = rw pending-insert (elim (Bool-cases (k == key)) [
  | inl t ↦ let same : k ≡ key = (==_iff k key).0 t in rw t (rw same refl)
  | inr n ↦ rw n (sym (append_nil (pending q.queued key)))
])
step-exactly q (drains k) key s =
    rw (commands_of-tagged key k (pending q.queued k), drain-pending q k key)
      (elim (Bool-cases (k == key)) [
        | inl t ↦ let same : k ≡ key = (==_iff k key).0 t in rw t (rw same refl)
        | inr n ↦ rw n (sym (append_nil (pending q.queued key)))
      ])
step-exactly q restarts key s = s key ∙ sym (append_nil (pending q.queued key))

queued_by-cons :
    (key : Text) (x : Step) (steps : List Step)
    → queued_by key (x ∷ steps) ≡ queued_by key (x ∷ []) ++ queued_by key steps
unfolding queued_by
queued_by-cons key (queues k cmd) steps = elim (Bool-cases (k == key)) [
  | inl t ↦ rw t refl
  | inr n ↦ rw n refl
]
queued_by-cons key (drains k) steps = refl
queued_by-cons key restarts steps = refl

-- Whatever is queued for whatever devices, handed out as they connect, and read back at a restart, in
-- any order: what was handed out for a device, with what still waits for it, is what waited at first
-- and was queued for it since, in that order, each action once; the file has the queue at first.
pub run-exactly :
    (q : Queue) (steps : List Step) (key : Text)
    → IsSaved q
    → commands_of key (run q steps).1 ++ pending (run q steps).0.queued key
      ≡ pending q.queued key ++ queued_by key steps
unfolding run commands_of queued_by
run-exactly q [] key s = sym (append_nil (pending q.queued key))
run-exactly q (x ∷ steps) key s =
    let ih = run-exactly (step q x).0 steps key (step-IsSaved q x s) in
    let more = commands_of key (run (step q x).0 steps).1 in
    let left = pending (run (step q x).0 steps).0.queued key in
    ap (λ l. l ++ left) (commands_of-append key (step q x).1 (run (step q x).0 steps).1)
    ∙ (append_assoc (commands_of key (step q x).1) more left
        ∙ (ap (λ l. commands_of key (step q x).1 ++ l) ih
            ∙ (sym (
                  append_assoc (commands_of key (step q x).1) (pending (step q x).0.queued key)
                    (queued_by key steps))
                ∙ (ap (λ l. l ++ queued_by key steps) (step-exactly q x key s)
                    ∙ (append_assoc (pending q.queued key) (queued_by key (x ∷ []))
                          (queued_by key steps)
                        ∙ ap (λ l. pending q.queued key ++ l)
                            (sym (queued_by-cons key x steps)))))))
