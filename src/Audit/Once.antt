-- ===== src/Audit/Once.antt =====
-- crates/hub/src/main.rs: an operator's session and its summary (`touch_session`,
-- `session_summary_sweep`).
use haive_control.Prelude.{
  if-case, ℕ, suc, zero, ◌+◌, ◌≡◌, ◌≤◌, refl, sym, ap, subst, ◌∙◌, ==_refl, inl, inr, Bool, true,
  false, not, none, some, List, [], ◌∷◌, ◌++◌, Text, text, arith, map, take, length, retain,
  count_if, lookup, lookup-insert, Map, HasDistinctKeys, insert-HasDistinctKeys, Bool-cases, ◌==◌,
  ==_iff, All, nat_eq, list_eq, if◌then◌else◌,
}
use haive_control.Audit.Log.{Audit, Event, Session, audit, touch_session}
use haive_control.Audit.Summary.{build_session_summary}
use haive_control.Audit.Sweep.{
  is_due, summarize, append_summaries, session_summary_sweep, Call, audits, sweeps, step, run,
}
use haive_control.Audit.Written.{
  is_told, Written, audit-Written, append_summaries-Written, count_if-names,
}

lookup-summarize :
    (now : ℕ) (k : Text) (e : Session) (m : Map Text Session)
    → lookup k m ≡ some e
    → lookup k (map (summarize now) m)
      ≡ some (if is_due now (k, e) then record e { summarized = true } else e)
unfolding summarize
lookup-summarize now k e [] h = absurd (cc)
lookup-summarize now k e ((j, d) ∷ m) h = elim (Bool-cases (j == k)) [
  | inl t ↦
      let same : j ≡ k = (==_iff j k).0 t in
      let here : some d ≡ some e = rw t at h in
      let e' : d ≡ e = ground arith in
      let both : (j, d) ≡ (k, e) = cc in
      rw t (
        ap
          (λ (x : Text × Session).
            some (if is_due now x then record (x.1) { summarized = true } else x.1))
          both)
  | inr f ↦ rw f (lookup-summarize now k e m (rw f at h))
]

append_summaries-sessions :
    (a : Audit) (now : ℕ) (due : List (Text × Session))
    → (append_summaries a now due).sessions ≡ a.sessions
unfolding append_summaries audit
append_summaries-sessions a now [] = refl
append_summaries-sessions a now ((actor, s) ∷ due) =
    let told = build_session_summary a.log actor s in
    append_summaries-sessions
      (audit a now actor (text "summary") (text "session summary") (text "—") told) now due
    ∙ rw (==_refl (text "summary")) refl

lookup-summarize-none :
    (now : ℕ) (k : Text) (m : Map Text Session)
    → lookup k m ≡ none
    → lookup k (map (summarize now) m) ≡ none
unfolding summarize
lookup-summarize-none now k [] h = refl
lookup-summarize-none now k ((j, d) ∷ m) h = elim (Bool-cases (j == k)) [
  | inl t ↦ let bad : some d ≡ none = rw t at h in absurd (cc)
  | inr f ↦ rw f (lookup-summarize-none now k m (rw f at h))
]

take-all : {A : Type 0} (n : ℕ) (xs : List A) → length xs ≤ n → take n xs ≡ xs
take-all zero [] h = refl
take-all zero (x ∷ xs) h = absurd (omega arith)
take-all (suc n) [] h = refl
take-all (suc n) (x ∷ xs) h = ap (λ l. x ∷ l) (take-all n xs (omega arith))

module _ (a : Audit) (now : ℕ) (actor source action device detail : Text) where
  -- `audit` changes no other operator's session, and gives nobody two.
  audit-session :
      (who : Text)
      → (actor == who) ≡ false
      → lookup who (audit a now actor source action device detail).sessions ≡ lookup who a.sessions
  unfolding audit touch_session
  audit-session who other =
      if-case (λ m. lookup who m ≡ lookup who a.sessions) (source == text "summary") _ _ (λ _. refl)
        (λ _. rw lookup-insert (rw other refl))

  audit-HasDistinctKeys :
      HasDistinctKeys a.sessions
      → HasDistinctKeys (audit a now actor source action device detail).sessions
  unfolding audit touch_session
  audit-HasDistinctKeys d =
      if-case HasDistinctKeys (source == text "summary") _ _ (λ _. d)
        (λ _. insert-HasDistinctKeys actor _ a.sessions d)

-- Marking sessions leaves their keys.
map-HasDistinctKeys :
    (now : ℕ) (m : Map Text Session) → HasDistinctKeys m → HasDistinctKeys (map (summarize now) m)
unfolding summarize
map-HasDistinctKeys now [] d = tt
map-HasDistinctKeys now ((k, v) ∷ m) (new, d) =
    (lookup-summarize-none now k m new, map-HasDistinctKeys now m d)

-- The call is no action of this operator.
abbrev pub is_silent : Text → Call → Bool
is_silent who (audits now actor source action device detail) = not (actor == who)
is_silent who (sweeps now) = true

module _ (who : Text) (base : List Event) where
  -- The operator has this session, and so many summaries of it were written onto the base.
  abbrev Told : ℕ → Session → Audit → Type 0
  Told n e a =
      (lookup who a.sessions ≡ some e) × HasDistinctKeys a.sessions × Written who base n a.log

  sweep-Told :
      (n : ℕ) (e : Session) (a : Audit) (now : ℕ)
      → Told n e a
      → Told
          (n + (if is_due now (who, e) then 1 else 0))
          (if is_due now (who, e) then record e { summarized = true } else e)
          (session_summary_sweep a now)
  unfolding session_summary_sweep
  sweep-Told n e a now (h, d, w) =
      let marked : Audit = record a { sessions = map (summarize now) a.sessions } in
      let due = retain (is_due now) a.sessions in
      let kept = append_summaries-sessions marked now due in
      let one = count_if-names (is_due now) who a.sessions e d h in
      (
        rw kept (lookup-summarize now who e a.sessions h),
        rw kept (map-HasDistinctKeys now a.sessions d),
        subst (λ m. Written who base (n + m) (append_summaries marked now due).log) one
            (append_summaries-Written who base n marked now due w),
      )

  module _ (n : ℕ) (e : Session) (done : e.summarized ≡ true) where
    idle-Told : (a : Audit) (now : ℕ) → Told n e a → Told n e (session_summary_sweep a now)
    idle-Told a now h =
        let late : is_due now (who, e) ≡ false = rw done refl in
        let (session, keys, log) = sweep-Told n e a now h in
        (
          session ∙ rw late refl,
          keys,
          subst (λ m. Written who base m (session_summary_sweep a now).log)
              (rw late (let z : n + 0 ≡ n = omega arith in z)) log,
        )

    step-Told : (a : Audit) (c : Call) → is_silent who c ≡ true → Told n e a → Told n e (step a c)
    unfolding step
    step-Told a (sweeps now) s h = idle-Told a now h
    step-Told a (audits now actor source action device detail) s (h, d, w) =
        let other : (actor == who) ≡ false = ground arith in
        (
          audit-session a now actor source action device detail who other ∙ h,
          audit-HasDistinctKeys a now actor source action device detail d,
          audit-Written who base n a now actor source action device detail other w,
        )

    run-Told :
        (a : Audit) (cs : List Call)
        → All (λ c. is_silent who c ≡ true) cs
        → Told n e a
        → Told n e (run a cs)
    unfolding run
    run-Told a [] s h = h
    run-Told a (c ∷ cs) s h = run-Told (step a c) cs s.1 (step-Told a c s.0 h)

-- A session that is due at a sweep is summarized by it, and stays so, with its times, behind any
-- later events and sweeps until the operator acts again; and of all that the sweep and these write to
-- the log, exactly one event is a summary of this operator's. The log holds at most 500 events at
-- first, and no operator has two sessions.
pub summarized-once :
    (a : Audit) (now : ℕ) (who : Text) (e : Session) (cs : List Call)
    → HasDistinctKeys a.sessions
    → length a.log ≤ 500
    → lookup who a.sessions ≡ some e
    → is_due now (who, e) ≡ true
    → All (λ c. is_silent who c ≡ true) cs
    → let end = run (session_summary_sweep a now) cs in
      (lookup who end.sessions ≡ some (record e { summarized = true }))
      × ((added : List Event) × (end.log ≡ take 500 (added ++ a.log))
          × (count_if (is_told who) added ≡ 1))
summarized-once a now who e cs d small h due s =
    let at_first : Told who a.log 0 e a = (h, d, ([], sym (take-all 500 a.log small), refl)) in
    let told : Told who a.log 1 (record e { summarized = true }) (session_summary_sweep a now) =
      rw due at (sweep-Told who a.log 0 e a now at_first) in
    let (session, _, log) =
      run-Told who a.log 1 (record e { summarized = true }) refl (session_summary_sweep a now) cs s
        told in
    (session, log)
