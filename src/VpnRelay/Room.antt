-- ===== src/VpnRelay/Room.antt =====
-- What `make_room` and `admit` of crates/hub/src/vpnrelay.rs do to the sessions.
use haive_control.Prelude.{
  ℕ, suc, ◌+◌, ◌≤◌, ◌<◌, ◌≡◌, refl, ◌⊎◌, inl, inr, Bool, true, not, ◌&&◌, ◌||◌, Option, none, some,
  [], ◌∷◌, arith, ltb, remove, count_if, In, if◌then◌else◌, count_if-remove_lt, Bool-cases,
}
use haive_control.VpnRelay.Frames.{SocketAddr, addr_eq, ip_eq}
use haive_control.VpnRelay.Table.{Session, Sessions, expired, staler, scan, evict, make_room}

-- The loop counts the group.
scan-count :
    (of : SocketAddr × Session → Bool) (now : ℕ) (m : Sessions) (n : ℕ)
    (v : Option (SocketAddr × ℕ))
    → (scan of now m n v).0 ≡ n + count_if of m
unfolding scan
scan-count of now [] n v = omega arith
scan-count of now ((a, s) ∷ m) n v = ground (
  arith,
  scan-count of now m (if of (a, s) then suc n else n) (
      if of (a, s) && ((not s.answered || expired s now) && staler s v)
      then some (a, s.last)
      else v),
)

-- What may be evicted: a session of the group that is unanswered or expired.
abbrev pub IsVictim : (SocketAddr × Session → Bool) → ℕ → Sessions → SocketAddr → Type 0
IsVictim of now m a =
    (s : Session) × In (a, s) m × (of (a, s) ≡ true) × ((not s.answered || expired s now) ≡ true)

abbrev HasVictim : (SocketAddr × Session → Bool) → ℕ → Sessions → Option (SocketAddr × ℕ) → Type 0
HasVictim of now m none = Unit
HasVictim of now m (some (a, t)) = IsVictim of now m a

IsVictim-cons :
    (of : SocketAddr × Session → Bool) (now : ℕ) (e : SocketAddr × Session) (m : Sessions)
    (a : SocketAddr)
    → IsVictim of now m a
    → IsVictim of now (e ∷ m) a
IsVictim-cons of now e m a (s, i, o, x) = (s, inr i, o, x)

scan-IsVictim :
    (of : SocketAddr × Session → Bool) (now : ℕ) (m : Sessions) (n : ℕ)
    (v : Option (SocketAddr × ℕ))
    → ((scan of now m n v).1 ≡ v)
      ⊎ ((a : SocketAddr) × (t : ℕ) × ((scan of now m n v).1 ≡ some (a, t)) × IsVictim of now m a)
unfolding scan
scan-IsVictim of now [] n v = inl refl
scan-IsVictim of now ((a, s) ∷ m) n v =
    elim (Bool-cases (of (a, s) && ((not s.answered || expired s now) && staler s v))) [
      | inl t ↦
          rw (t, scan)
            (elim (scan-IsVictim of now m (if of (a, s) then suc n else n) (some (a, s.last))) [
              | inl e ↦ inr (a, s.last, e, (s, inl refl, ground arith, ground arith))
              | inr (b, u, e, w) ↦ inr (b, u, e, IsVictim-cons of now (a, s) m b w)
            ])
      | inr f ↦
          rw (f, scan)
            (elim (scan-IsVictim of now m (if of (a, s) then suc n else n) v) [
              | inl e ↦ inl e
              | inr (b, u, e, w) ↦ inr (b, u, e, IsVictim-cons of now (a, s) m b w)
            ])
    ]

-- The sessions are as they were, or one victim's are gone.
abbrev pub Evicted : (SocketAddr × Session → Bool) → ℕ → Sessions → Sessions → Type 0
Evicted of now m m' = (m' ≡ m) ⊎ ((a : SocketAddr) × (m' ≡ remove a m) × IsVictim of now m a)

pub make_room-Evicted :
    (m : Sessions) (of : SocketAddr × Session → Bool) (cap now : ℕ)
    → Evicted of now m (make_room m of cap now).0
unfolding make_room evict
make_room-Evicted m of cap now = elim (Bool-cases (ltb (scan of now m 0 none).0 cap)) [
  | inl t ↦ rw t (inl refl)
  | inr f ↦ rw f (elim (scan-IsVictim of now m 0 none) [
    | inl e ↦ rw (e, evict) (inl refl)
    | inr (a, t, e, w) ↦ rw (e, evict) (inr (a, refl, w))
  ])
]

-- If there is room, the group is now under its cap.
pub make_room-count_lt :
    (m : Sessions) (of : SocketAddr × Session → Bool) (cap now : ℕ)
    → count_if of m ≤ cap
    → (make_room m of cap now).1 ≡ true
    → count_if of (make_room m of cap now).0 < cap
unfolding make_room evict
make_room-count_lt m of cap now h r = elim (Bool-cases (ltb (scan of now m 0 none).0 cap)) [
  | inl t ↦ rw t (ground (arith, scan-count of now m 0 none))
  | inr f ↦ rw f (elim (scan-IsVictim of now m 0 none) [
    | inl e ↦ absurd (ground (arith, e))
    | inr (a, t, e, (s, i, o, x)) ↦ rw (e, evict) (omega (arith, count_if-remove_lt of a s m i o))
  ])
]
