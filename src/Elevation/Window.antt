-- ===== src/Elevation/Window.antt =====
-- crates/hub/src/elevation.rs and main.rs: what every request, approval, grant, refusal and sweep
-- keeps of the board: the parts.
use haive_control.Prelude.{
  ℕ, zero, suc, ◌+◌, ◌-◌, ◌*◌, ◌≤◌, ◌≡◌, refl, inl, inr, Bool, true, false, not, List, [], ◌∷◌,
  ◌++◌, Text, arith, length, drop, retain, count_if, count_if-retain_le, length-drop, All,
  All-append, All-retain, ltb, ==_iff, nat_eq, list_eq, Bool-cases, if-case,
}
use haive_control.Elevation.Board.{
  Ask, Grant, Board, submit, add_grant, remove_grant, newest, new_ask, asks_again, is_grant, save,
}

module _ {A : Type 0} (p : A → Bool) where
  count_if-append : (xs ys : List A) → count_if p (xs ++ ys) ≡ count_if p xs + count_if p ys
  count_if-append [] ys = omega arith
  count_if-append (x ∷ xs) ys = ground (arith, count_if-append xs ys)

  count_if-drop_le : (n : ℕ) (xs : List A) → count_if p (drop n xs) ≤ count_if p xs
  count_if-drop_le zero xs = omega arith
  count_if-drop_le (suc n) [] = omega arith
  count_if-drop_le (suc n) (x ∷ xs) = ground (arith, count_if-drop_le n xs)

  -- What a filter takes away, none is left of.
  count_if-retain_none :
      (q : A → Bool)
      → ((x : A) → p x ≡ true → q x ≡ false)
      → (xs : List A) → count_if p (retain q xs) ≡ 0
  count_if-retain_none q h [] = refl
  count_if-retain_none q h (x ∷ xs) = ground (arith, h x, count_if-retain_none q h xs)

All-drop : {A : Type 0} (P : A → Type 0) (n : ℕ) (xs : List A) → All P xs → All P (drop n xs)
All-drop P zero xs a = a
All-drop P (suc n) [] a = a
All-drop P (suc n) (x ∷ xs) a = All-drop P n xs a.1

-- Between a minute and eight hours.
abbrev pub IsWindow : ℕ → Type 0
IsWindow m = (1 ≤ m) × (m ≤ 480)

abbrev HasWindow : Grant → Type 0
HasWindow g = (g.granted_at + 60 ≤ g.revoke_at) × (g.revoke_at ≤ g.granted_at + 28800)

pub record IsTidy (b : Board) : Type 0 where
  pub few : length b.requests ≤ 200
  pub one_ask : (k u : Text) → count_if (asks_again k u) b.requests ≤ 1
  pub short : All (λ (x : Ask). IsWindow x.minutes) b.requests
  pub one_grant : (k u : Text) → count_if (is_grant k u) b.grants ≤ 1
  pub windows : All HasWindow b.grants
  pub stored : b.disk_grants ≡ b.grants

length-newest : (n : ℕ) (r : List Ask) → length (newest n r) ≤ n
unfolding newest
length-newest n r =
    if-case (λ (x : List Ask). length x ≤ n) (ltb n (length r)) _ _
      (λ h. ground (arith, length-drop (length r - n) r)) (λ h. ground arith)

count-newest_le : (p : Ask → Bool) (n : ℕ) (r : List Ask) → count_if p (newest n r) ≤ count_if p r
unfolding newest
count-newest_le p n r =
    if-case (λ (x : List Ask). count_if p x ≤ count_if p r) (ltb n (length r)) _ _
      (λ h. count_if-drop_le p (length r - n) r) (λ h. omega arith)

All-newest : (P : Ask → Type 0) (n : ℕ) (r : List Ask) → All P r → All P (newest n r)
unfolding newest
All-newest P n r a =
    if-case (λ (x : List Ask). All P x) (ltb n (length r)) _ _ (λ h. All-drop P (length r - n) r a)
      (λ h. a)

-- The new one takes the place of those with its key and user.
replaced :
    {A : Type 0} (same : Text → Text → A → Bool) (k u : Text) (x : A) (xs : List A)
    → ((j w : Text) → same j w x ≡ true → (j ≡ k) × (w ≡ u))
    → (j w : Text) → count_if (same j w) xs ≤ 1
    → count_if (same j w) (retain (λ y. not (same k u y)) xs ++ (x ∷ [])) ≤ 1
replaced same k u x xs only j w h = elim (Bool-cases (same j w x)) [
  | inl e ↦
      let (ej, ew) = only j w e in
      let gone : count_if (same j w) (retain (λ y. not (same k u y)) xs) ≡ 0 =
        rw (ej, ew)
          (count_if-retain_none (same k u) (λ y. not (same k u y)) (λ y t. rw t refl) xs) in
      ground (arith, count_if-append (same j w) (retain (λ y. not (same k u y)) xs) (x ∷ []), gone)
  | inr e ↦ ground (
    arith,
    count_if-append (same j w) (retain (λ y. not (same k u y)) xs) (x ∷ []),
    count_if-retain_le (same j w) (λ y. not (same k u y)) xs,
  )
]

pub submit-IsTidy :
    (b : Board) (o k t d u : Text) (m : ℕ) (why : Text) (now : ℕ)
    → IsWindow m
    → IsTidy b
    → IsTidy (submit b o k t d u m why now).0
unfolding submit new_ask
submit-IsTidy b o k t d u m why now w i =
    let req = new_ask b.next_id o k t d u m why now in
    let r = retain (λ x. not (asks_again k u x)) b.requests ++ (req ∷ []) in
    record {
      few = length-newest 200 r;
      one_ask = λ j v. ground (
        arith,
        count-newest_le (asks_again j v) 200 r,
        replaced asks_again k u req b.requests
            (λ j v e. (ground (arith, ==_iff k j), ground (arith, ==_iff u v))) j v (i.one_ask j v),
      );
      short =
          All-newest (λ (x : Ask). IsWindow x.minutes) 200 r
            (All-append (λ (x : Ask). IsWindow x.minutes) _ (req ∷ [])
              (All-retain _ _ b.requests i.short) (w, tt));
      one_grant = i.one_grant;
      windows = i.windows;
      stored = i.stored;
    }

pub add_grant-IsTidy :
    (b : Board) (o k t d u : Text) (m now : ℕ)
    → IsWindow m
    → IsTidy b
    → IsTidy (add_grant b o k t d u m now)
unfolding add_grant save
add_grant-IsTidy b o k t d u m now w i =
    let g : Grant = record {
      owner = o;
      device_key = k;
      target = t;
      device = d;
      user = u;
      granted_at = now;
      revoke_at = now + m * 60;
    } in
    record {
      few = i.few;
      one_ask = i.one_ask;
      short = i.short;
      one_grant = λ j v.
          replaced is_grant k u g b.grants
            (λ j v e. (ground (arith, ==_iff k j), ground (arith, ==_iff u v))) j v
            (i.one_grant j v);
      windows =
          All-append HasWindow _ (g ∷ []) (All-retain HasWindow _ b.grants i.windows)
            ((omega arith, omega arith), tt);
      stored = refl;
    }

pub remove_grant-IsTidy : (b : Board) (k u : Text) → IsTidy b → IsTidy (remove_grant b k u)
unfolding remove_grant save
remove_grant-IsTidy b k u i = record {
  few = i.few;
  one_ask = i.one_ask;
  short = i.short;
  one_grant = λ j v. omega (
    arith,
    i.one_grant j v,
    count_if-retain_le (is_grant j v) (λ x. not (is_grant k u x)) b.grants,
  );
  windows = All-retain HasWindow _ b.grants i.windows;
  stored = refl;
}
