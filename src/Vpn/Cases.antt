-- ===== src/Vpn/Cases.antt =====
-- crates/hub/src/vpn.rs: the ways out of the endpoints' second halves, for any predicate.
use haive_control.Prelude.{
  if-case, ℕ, ◌≡◌, refl, Bool, true, false, not, ◌&&◌, ◌||◌, Option, some, List, Text, arith,
  insert, inl, inr, any, leb, count_if, find, update_first, lookup, is_some, Option-cases, ◌==◌,
  nat_eq, list_eq,
}
use haive_control.VpnRelay.Frames.{Crypto}
use haive_control.VpnRelay.Table.{Relay, SetResult, ok, err}
use haive_control.Vpn.Defs.{
  Pass, DevCfg, Vpn, take_back, mark_dirty, save, flag, epoch, version, allocate, Revoked, revoke,
  is_pass, set_revoked, passes_changed,
}
use haive_control.Vpn.Calls.{store_issued, store_revoked}
use haive_control.Vpn.Ops.{
  Started, Pushed, Issued, Reply, Request, new_pass, add_pass, ttl_choices_h, max_live_per_device,
  same_live, enable_finish, issue_begin, record_enable, register_relay, reported_key, issue_finish,
  sweep_finish, revoke_finish, give_up, answer, same_owner, is_ok, withdraw,
}

-- What an enable records.
unfoldable pub enabled : Vpn → Text → DevCfg → Relay → Vpn
enabled v d cfg r =
    save (record v { store = record (v.store) { devices = insert d cfg v.devices }; relay = r })

module _ (dk : Text → Option (List ℕ)) (c : Crypto) (P : Reply → Type 0) where
  set-case :
      (v : Vpn) (d : Text) (cfg : DevCfg) (s : SetResult)
      → P (answer v 409)
      → ((r : Relay) → P (answer (enabled v d cfg r) 200))
      → P (elim s [ err other ↦ answer v 409 | ok r ↦ answer (enabled v d cfg r) 200 ])
  set-case v d cfg (ok r) f g = g r
  set-case v d cfg (err x) f g = f

  record_enable-case :
      (v : Vpn) (d : Text) (cfg : DevCfg) (ver : ℕ)
      → P (answer v 409)
      → ((r : Relay)
          → P (answer (enabled v d (record cfg { dirty = not (version v.store d == ver) }) r) 200))
      → P (record_enable dk c v d cfg ver)
  unfolding record_enable enabled
  record_enable-case v d cfg ver f g =
      set-case v d (record cfg { dirty = not (version v.store d == ver) })
        (register_relay dk c v.relay d cfg) f g

  pub enable_finish-case :
      (v : Vpn) (d : Text) (b : Started) (pushed : Pushed) (owner : Option Text)
      → P (answer v 502)
      → P (give_up v d)
      → ((epoch v.store d ≡ b.epoch) → P (answer v 409))
      → ((cfg : DevCfg) (r : Relay)
          → (epoch v.store d ≡ b.epoch)
          → cfg.dirty ≡ not (version v.store d == b.version)
          → P (answer (enabled v d cfg r) 200))
      → P (enable_finish dk c v d b pushed owner)
  unfolding enable_finish
  enable_finish-case v d b pushed owner f g h k = elim (Option-cases (reported_key dk c pushed)) [
    | inl e ↦ rw (e, enable_finish) f
    | inr (pk, e) ↦
        rw (e, enable_finish)
          (if-case P (not (same_owner owner b.owner)) _ _ (λ _. g)
            (λ _.
              if-case P (not (epoch v.store d == b.epoch)) _ _ (λ _. g)
                (λ t.
                  record_enable-case v d (record b.cfg { server_public_key = pk; dirty = false })
                    b.version (h (ground arith)) (λ r. k _ r (ground arith) refl))))
  ]

module _ (P : Reply → Type 0) where
  pub issue_finish-case :
      (v : Vpn) (p : Pass) (b : Started) (pushed : Pushed) (owner : Option Text) (t : ℕ)
      → ((not (epoch v.store p.device == b.epoch) || not (same_owner owner b.owner)) ≡ true
          → P (give_up (withdraw v p.id t) p.device))
      → ((not (epoch v.store p.device == b.epoch) || not (same_owner owner b.owner)) ≡ true
          → P (answer (withdraw v p.id t) 409))
      → (epoch v.store p.device ≡ b.epoch → P (answer (mark_dirty v p.device) 201))
      → (epoch v.store p.device ≡ b.epoch → P (answer v 201))
      → P (issue_finish v p b pushed owner t)
  unfolding issue_finish
  issue_finish-case v p b pushed owner t f g h k =
      if-case P (not (epoch v.store p.device == b.epoch) || not (same_owner owner b.owner)) _ _
        (λ e. if-case P (is_ok pushed) _ _ (λ _. f e) (λ _. g e))
        (λ e.
          if-case P (not (is_ok pushed) || not (version v.store p.device == b.version)) _ _
            (λ _. h (ground arith)) (λ _. k (ground arith)))

module _ (P : Vpn → Type 0) where
  pub take_back-case : (v : Vpn) (d : Text) → P v → P (save (flag true d v)) → P (take_back v d).0
  unfolding take_back
  take_back-case v d f g = if-case (λ (x : Vpn × Bool). P x.0) _ _ _ (λ _. g) (λ _. f)

  pub sweep_finish-case :
      (v : Vpn) (d : Text) (b : Started) (pushed : Pushed)
      → P v
      → P (take_back v d).0
      → (epoch v.store d ≡ b.epoch
          → version v.store d ≡ b.version
          → is_ok pushed ≡ true
          → P (save (flag false d v)))
      → P (sweep_finish v d b pushed)
  unfolding sweep_finish
  sweep_finish-case v d b pushed f g h =
      if-case P (not (epoch v.store d == b.epoch)) _ _
        (λ _. if-case P (is_ok pushed) _ _ (λ _. g) (λ _. f))
        (λ e.
          if-case P (is_ok pushed) _ _
            (λ k.
              if-case P (not (version v.store d == b.version)) _ _ (λ _. f)
                (λ z. h (ground arith) (ground arith) k))
            (λ _. f))

  pub issue_begin-case :
      (v : Vpn) (q : Request) (owner : Option Text) (t : ℕ)
      → P v
      → ((a : Text)
          → any (λ p. same_live q.device t p && p.public_key == q.public_key) v.passes ≡ false
          → leb max_live_per_device (count_if (same_live q.device t) v.passes) ≡ false
          → allocate v.passes q.device t ≡ some a
          → P (add_pass v (new_pass q a t)))
      → P (store_issued v (issue_begin v q owner t))
  unfolding issue_begin store_issued
  issue_begin-case v q owner t f g =
      if-case (λ (x : Issued). P (store_issued v x)) (not (any (λ h. h == q.hours) ttl_choices_h)) _
        _ (λ _. f)
        (λ _. elim (Option-cases (lookup q.device v.devices)) [
          | inl e ↦ rw (e, store_issued) f
          | inr (cfg, e) ↦
              rw (e, store_issued)
                (if-case (λ (x : Issued). P (store_issued v x))
                  (any (λ p. same_live q.device t p && p.public_key == q.public_key) v.passes) _ _
                  (λ _. f)
                  (λ ka.
                    if-case (λ (x : Issued). P (store_issued v x))
                      (leb max_live_per_device (count_if (same_live q.device t) v.passes)) _ _
                      (λ _. f)
                      (λ kc. elim (Option-cases (allocate v.passes q.device t)) [
                        | inl i ↦ rw (i, store_issued) f
                        | inr (a, i) ↦ rw (i, store_issued) (g a ka kc i)
                      ])))
        ])

  pub revoke_finish-case :
      (v : Vpn) (d : Text) (r : Revoked) (synced : Bool)
      → P v
      → P (mark_dirty v d)
      → P (revoke_finish v d r synced)
  unfolding revoke_finish
  revoke_finish-case v d r synced f g =
      if-case P (is_some r.cfg && (not synced || not (version v.store d == r.version))) _ _ (λ _. g)
        (λ _. f)

  pub revoke-case :
      (v : Vpn) (d id : Text) (t : ℕ)
      → P v
      → P (
          save (record v {
            store = passes_changed d (record (v.store) {
              passes = update_first (is_pass d id) (set_revoked t) v.passes;
            });
          }))
      → P (store_revoked v (revoke v d id t))
  unfolding revoke store_revoked
  revoke-case v d id t f g = elim (Option-cases (find (is_pass d id) v.passes)) [
    | inl e ↦ rw (e, store_revoked) f
    | inr (p, e) ↦ rw (e, store_revoked) g
  ]
