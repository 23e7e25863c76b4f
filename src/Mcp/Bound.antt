-- ===== src/Mcp/Bound.antt =====
-- crates/hub/src/main.rs: as whom a request under /m/ acts, and what it may reach.
use haive_control.Prelude.{
  ◌≡◌, refl, sym, subst, ◌∙◌, inl, inr, ◌⊎◌, true, false, ◌&&◌, Option, some, [], Text, text, arith,
  any, is_empty, unwrap_or, Bool-cases, Option-cases, ◌==◌, ==_iff, nat_eq, list_eq, if◌then◌else◌,
}
use haive_control.ConstantTime.{ct_eq}
use haive_control.Devices.Rows.{may_control}
use haive_control.Devices.Owners.{canon_owner}
use haive_control.Mcp.Tokens.{Scoped, resolve}
use haive_control.Mcp.Gateway.{
  Request, denied, scoped, Env, as_scoped, mcp_auth, mcp_is_write, own_check, Logs, stopped, passes,
  log_access, check_target, mcp_gate,
}

-- The target that a request names is the owner's, unless its endpoint looks at that itself.
abbrev pub IsReachable : Env → Request → Option Text → Type 0
IsReachable e r owner =
    (any (λ p. p == r.path) own_check ≡ true)
    ⊎ ((t : Text) → r.param (text "target") ≡ some t → may_control owner e.agents t ≡ true)

check_target-IsReachable :
    (e : Env) (l l' : Logs) (r : Request) (o owner : Option Text)
    → check_target e l r o ≡ passes owner l'
    → (owner ≡ o) × IsReachable e r owner
unfolding check_target
check_target-IsReachable e l l' r o owner h = elim (Bool-cases (any (λ p. p == r.path) own_check)) [
  | inl t ↦ let h' : passes o l ≡ passes owner l' = rw (t, check_target) at h in (cc, inl t)
  | inr n ↦ elim (Option-cases (r.param (text "target"))) [
    | inl none_named ↦
        let h' : passes o l ≡ passes owner l' = rw (n, none_named, check_target) at h in
        (cc, inr (λ t named. absurd (cc)))
    | inr (t, named) ↦
        let h' : (if may_control o e.agents t then passes o (log_access e l r o t) else stopped 403)
            ≡ passes owner l' =
          rw (n, named, check_target) at h in
        elim (Bool-cases (may_control o e.agents t)) [
          | inl may ↦
              let h'' : passes o (log_access e l r o t) ≡ passes owner l' = rw may at h' in
              let same : owner ≡ o = cc in
              (
                same,
                inr (λ u named'.
                    let both : some t ≡ some u = sym named ∙ named' in
                    let t' : t ≡ u = ground arith in
                    subst (λ x. may_control owner e.agents x ≡ true) t'
                      (subst (λ x. may_control x e.agents t ≡ true) (sym same) may)),
              )
          | inr no_may ↦ let h'' : stopped 403 ≡ passes owner l' = rw no_may at h' in absurd (cc)
        ]
  ]
]

-- Where the shared MCP_TOKEN is set, a request under /m/ that passes without it carries a token of its
-- own that is alive, acts as that token's owner, whatever owner it names, calls nothing that writes if
-- the token's scope is read, and names no target that is not the owner's, unless its endpoint looks at
-- the target itself.
pub mcp_gate-IsReachable :
    (e : Env) (l l' : Logs) (r : Request) (owner : Option Text)
    → is_empty (unwrap_or [] e.mcp_token) ≡ false
    → ct_eq (unwrap_or [] (r.param (text "mtok"))) (unwrap_or [] e.mcp_token) ≡ false
    → mcp_gate e l r ≡ passes owner l'
    → (s : Scoped) × (resolve e.sha256 e.items (unwrap_or [] (r.param (text "mtok"))) e.now
        ≡ some s)
      × (owner ≡ some (canon_owner e.outside e.owner_tokens s.owner))
      × (s.scope ≡ text "read" → mcp_is_write r ≡ false)
      × IsReachable e r owner
unfolding mcp_gate mcp_auth as_scoped
mcp_gate-IsReachable e l l' r owner set other h =
    elim (Option-cases (resolve e.sha256 e.items (unwrap_or [] (r.param (text "mtok"))) e.now)) [
      | inl dead ↦
          let auth : mcp_auth e r ≡ denied = rw (set, other, dead) refl in
          let h' : stopped 401 ≡ passes owner l' = rw (auth, mcp_gate) at h in absurd (cc)
      | inr (s, alive) ↦
          let auth : mcp_auth e r ≡ scoped s.owner s.scope = rw (set, other, alive) refl in
          let as_owner = some (canon_owner e.outside e.owner_tokens s.owner) in
          let h' : (if s.scope == text "read" && mcp_is_write r
                then stopped 403
                else check_target e l r as_owner)
              ≡ passes owner l' =
            rw (auth, mcp_gate) at h in
          elim (Bool-cases (s.scope == text "read" && mcp_is_write r)) [
            | inl writes ↦ let h'' : stopped 403 ≡ passes owner l' = rw writes at h' in absurd (cc)
            | inr fine ↦
                let h'' : check_target e l r as_owner ≡ passes owner l' = rw fine at h' in
                let (same, reach) = check_target-IsReachable e l l' r as_owner owner h'' in
                (
                  s,
                  alive,
                  same,
                  (λ read. let read' = (==_iff s.scope (text "read")).1 read in ground arith),
                  reach,
                )
          ]
    ]
