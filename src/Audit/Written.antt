-- ===== src/Audit/Written.antt =====
-- crates/hub/src/main.rs: the summaries of one operator that `audit` and `session_summary_sweep` write.
use haive_control.Prelude.{
  ℕ, suc, zero, ◌+◌, ◌≡◌, ◌≤◌, refl, ap, subst, ◌∙◌, inl, inr, Bool, true, false, ◌&&◌, none, some,
  List, [], ◌∷◌, ◌++◌, Text, text, arith, take, retain, count_if, lookup, Map, HasDistinctKeys,
  Bool-cases, ◌==◌, ==_iff, nat_eq, list_eq, list_beq, if◌then◌else◌,
}
use haive_control.Audit.Log.{Audit, Event, Session, audit, push_event}
use haive_control.Audit.Summary.{build_session_summary}
use haive_control.Audit.Sweep.{append_summaries}

take-take : {A : Type 0} (m n : ℕ) (ys : List A) → m ≤ n → take m (take n ys) ≡ take m ys
take-take zero n ys h = refl
take-take (suc m) zero ys h = absurd (omega arith)
take-take (suc m) (suc n) [] h = refl
take-take (suc m) (suc n) (y ∷ ys) h = ap (λ l. y ∷ l) (take-take m n ys (omega arith))

-- An event that is the summary of a session of this operator.
abbrev pub is_told : Text → Event → Bool
is_told who e = e.source == text "summary" && (e.actor == who)

untold : (b : Bool) (n : ℕ) → n + (if b && false then 1 else 0) ≡ n
untold true n = omega arith
untold false n = omega arith

module _ (who : Text) (base : List Event) where
  -- The log is what was written onto the base, cut to its size, with so many summaries.
  abbrev pub Written : ℕ → List Event → Type 0
  Written n log =
      (added : List Event) × (log ≡ take 500 (added ++ base)) × (count_if (is_told who) added ≡ n)

  push_event-Written :
      (n : ℕ) (log : List Event) (e : Event)
      → Written n log
      → Written (n + (if is_told who e then 1 else 0)) (push_event log e)
  unfolding push_event
  push_event-Written n log e (added, same, k) = (
    e ∷ added,
    rw same (ap (λ l. e ∷ l) (take-take 499 500 (added ++ base) (omega arith))),
    ground (arith, k),
  )

  pub audit-Written :
      (n : ℕ) (a : Audit) (now : ℕ) (actor source action device detail : Text)
      → (actor == who) ≡ false
      → Written n a.log
      → Written n (audit a now actor source action device detail).log
  unfolding audit
  audit-Written n a now actor source action device detail other w =
      let e : Event = record {
        at = now;
        actor = actor;
        source = source;
        action = action;
        device = device;
        detail = take 180 detail;
      } in
      let silent : n + (if is_told who e then 1 else 0) ≡ n =
        rw other (untold (source == text "summary") n) in
      subst (λ m. Written m (push_event a.log e)) silent (push_event-Written n a.log e w)

  pub append_summaries-Written :
      (n : ℕ) (a : Audit) (now : ℕ) (due : List (Text × Session))
      → Written n a.log
      → Written
          (n + count_if (λ (x : Text × Session). x.0 == who) due)
          (append_summaries a now due).log
  unfolding append_summaries audit list_beq
  append_summaries-Written n a now [] w = subst (λ m. Written m a.log) (omega arith) w
  append_summaries-Written n a now ((actor, s) ∷ due) w =
      let told = build_session_summary a.log actor s in
      let e : Event = record {
        at = now;
        actor = actor;
        source = text "summary";
        action = text "session summary";
        device = text "—";
        detail = take 180 told;
      } in
      let next = audit a now actor (text "summary") (text "session summary") (text "—") told in
      let one : Written (n + (if actor == who then 1 else 0)) next.log =
        push_event-Written n a.log e w in
      subst (λ m. Written m (append_summaries next now due).log) (ground arith)
        (append_summaries-Written (n + (if actor == who then 1 else 0)) next now due one)

module _ (p : Text × Session → Bool) (who : Text) where
  abbrev names : Text × Session → Bool
  names x = x.0 == who

  count_if-names-none :
      (m : Map Text Session) → lookup who m ≡ none → count_if names (retain p m) ≡ 0
  count_if-names-none [] h = refl
  count_if-names-none ((k, v) ∷ m) h = elim (Bool-cases (k == who)) [
    | inl t ↦ let bad : some v ≡ none = rw t at h in absurd (cc)
    | inr f ↦
        let rest : lookup who m ≡ none = rw f at h in
        let ih = count_if-names-none m rest in ground arith
  ]

  -- Of an operator's sessions, one or none passes a test.
  pub count_if-names :
      (m : Map Text Session) (e : Session)
      → HasDistinctKeys m
      → lookup who m ≡ some e
      → count_if (λ (x : Text × Session). x.0 == who) (retain p m) ≡ (if p (who, e) then 1 else 0)
  count_if-names [] e d h = absurd (cc)
  count_if-names ((k, v) ∷ m) e d h = elim (Bool-cases (k == who)) [
    | inl t ↦
        let same : k ≡ who = (==_iff k who).0 t in
        let here : some v ≡ some e = rw t at h in
        let v_e : v ≡ e = ground arith in
        let alone : count_if names (retain p m) ≡ 0 =
          count_if-names-none m (subst (λ j. lookup j m ≡ none) same d.0) in
        let both : (k, v) ≡ (who, e) = cc in
        let test : p (k, v) ≡ p (who, e) = ap p both in first k v m alone t ∙ rw test refl
    | inr f ↦
        let rest : lookup who m ≡ some e = rw f at h in
        let ih = count_if-names m e d.1 rest in ground arith
  ]
    where
      first :
          (k : Text) (v : Session) (m : Map Text Session)
          → count_if names (retain p m) ≡ 0
          → (k == who) ≡ true
          → count_if names (retain p ((k, v) ∷ m)) ≡ (if p (k, v) then 1 else 0)
      first k v m alone t = ground arith
