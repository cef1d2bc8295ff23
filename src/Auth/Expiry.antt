-- ===== src/Auth/Expiry.antt =====
-- How long the private identity stays in memory (internal/passfs/volume.go: the grants, the timer
-- and the cached identity).
use passfs.Prelude.{
  ℕ, ◌≤◌, ◌<◌, ◌≡◌, inl, inr, refl, Bool, true, false, Option, none, some, [], ◌∷◌, arith, ◌==◌,
  nat_equality, ltb, if◌then◌else◌, is_empty, Bool-cases, All,
}
use passfs.Table.{Table, insert, delete}
use passfs.Auth.State.{
  AuthKey, auth_key_equality, Auth, remove_expired, drop_if_unused, keep_live, latest,
  schedule_identity_expiry,
}

abbrev pub Grants : Type 0
Grants = Table AuthKey ℕ

-- The timer fires no earlier than the last grant ends; without a timer there is no grant.
abbrev pub Covers : Option ℕ → Grants → Type 0
Covers none m = is_empty m ≡ true
Covers (some t) m = All (λ g. g.1 ≤ t) m

-- What bounds the life of the cached identity: it is there only beside a grant, and the timer is
-- set for the end of every grant.
pub record IsTimed {I : Type 0} (s : Auth I) : Type 0 where
  pub positive : All (λ g. 0 < g.1) s.authorized
  pub used : is_empty s.authorized ≡ true → s.cached_identity ≡ none
  pub covered : Covers s.unlock_timer s.authorized

pub keep_live-All :
    (P : AuthKey × ℕ → Type 0) (now : ℕ) (m : Grants) → All P m → All P (keep_live now m)
unfolding keep_live
keep_live-All P now [] h = tt
keep_live-All P now ((k, u) ∷ m) h = elim (Bool-cases (ltb now u)) [
  | inl e ↦ rw e (h.0, keep_live-All P now m h.1)
  | inr e ↦ rw e (keep_live-All P now m h.1)
]

pub delete-All :
    (P : AuthKey × ℕ → Type 0) (key : AuthKey) (m : Grants) → All P m → All P (delete key m)
unfolding delete
delete-All P key [] h = tt
delete-All P key ((k, u) ∷ m) h = elim (Bool-cases (k == key)) [
  | inl e ↦ rw e (delete-All P key m h.1)
  | inr e ↦ rw e (h.0, delete-All P key m h.1)
]

pub insert-All :
    (P : AuthKey × ℕ → Type 0) (key : AuthKey) (v : ℕ) (m : Grants)
    → P (key, v)
    → All P m
    → All P (insert key v m)
unfolding insert
insert-All P key v [] p h = (p, tt)
insert-All P key v ((k, u) ∷ m) p h = elim (Bool-cases (k == key)) [
  | inl e ↦ rw e (p, h.1)
  | inr e ↦ rw e (h.0, insert-All P key v m p h.1)
]

pub insert-nonempty : (key : AuthKey) (v : ℕ) (m : Grants) → is_empty (insert key v m) ≡ false
unfolding insert
insert-nonempty key v [] = refl
insert-nonempty key v ((k, u) ∷ m) = elim (Bool-cases (k == key)) [ inl e ↦ rw e | inr e ↦ rw e ]

All-weaken :
    (P Q : AuthKey × ℕ → Type 0)
    → ((g : AuthKey × ℕ) → P g → Q g)
    → (m : Grants) → All P m
    → All Q m
All-weaken P Q f [] h = tt
All-weaken P Q f (g ∷ m) h = (f g h.0, All-weaken P Q f m h.1)

All-le-latest : (m : Grants) → All (λ g. g.1 ≤ latest m) m
unfolding latest
All-le-latest [] = tt
All-le-latest ((k, u) ∷ m) =
    let top : ℕ = latest ((k, u) ∷ m) in
    let below : latest m ≤ top = ground arith in
    (
      ground arith,
      All-weaken (λ g. g.1 ≤ latest m) (λ g. g.1 ≤ top) (λ g h. omega arith) m (All-le-latest m),
    )

latest-zero : (m : Grants) → All (λ g. 0 < g.1) m → latest m ≡ 0 → is_empty m ≡ true
unfolding latest
latest-zero [] h e = refl
latest-zero ((k, u) ∷ m) h e = absurd (ground (arith, h.0))

-- With nothing before `now` kept, all is gone once every grant has ended.
pub keep_live-ended : (now : ℕ) (m : Grants) → All (λ g. g.1 ≤ now) m → keep_live now m ≡ []
unfolding keep_live
keep_live-ended now [] h = refl
keep_live-ended now ((k, u) ∷ m) h = ground (arith, h.0, keep_live-ended now m h.1)

keep_live-covered : (now : ℕ) (t : Option ℕ) (m : Grants) → Covers t m → Covers t (keep_live now m)
keep_live-covered now none [] h = unfold keep_live in refl
keep_live-covered now none (g ∷ m) h = cc
keep_live-covered now (some t) m h = keep_live-All (λ g. g.1 ≤ t) now m h

module _ {I : Type 0} where
  pub drop_if_unused-IsTimed :
      (s : Auth I)
      → All (λ g. 0 < g.1) s.authorized
      → Covers s.unlock_timer s.authorized
      → IsTimed (drop_if_unused s)
  drop_if_unused-IsTimed s p c = when (is_empty s.authorized) refl
    where
      when :
          (b : Bool)
          → is_empty s.authorized ≡ b
          → IsTimed (if b then record s { cached_identity = none } else s)
      when true e = record { positive = p; used = λ _. refl; covered = c }
      when false e = record { positive = p; used = λ q. cc; covered = c }

  pub remove_expired-IsTimed : (now : ℕ) (s : Auth I) → IsTimed s → IsTimed (remove_expired now s)
  unfolding remove_expired
  remove_expired-IsTimed now s h =
      drop_if_unused-IsTimed (record s { authorized = keep_live now s.authorized })
        (keep_live-All (λ g. 0 < g.1) now s.authorized h.positive)
        (keep_live-covered now s.unlock_timer s.authorized h.covered)

  -- Rescheduling restores the timer, whatever it was.
  pub schedule-IsTimed :
      (now : ℕ) (s : Auth I)
      → All (λ g. 0 < g.1) s.authorized
      → (is_empty s.authorized ≡ true → s.cached_identity ≡ none)
      → IsTimed (schedule_identity_expiry now s)
  unfolding schedule_identity_expiry
  schedule-IsTimed now s p u = when (latest s.authorized == 0) refl
    where
      when :
          (b : Bool)
          → (latest s.authorized == 0) ≡ b
          → IsTimed (
              if b then record s { unlock_timer = none; cached_identity = none } else record s {
                unlock_timer =
                    some (if ltb now (latest s.authorized) then latest s.authorized else now);
              })
      when true e = record {
        positive = p;
        used = λ _. refl;
        covered = latest-zero s.authorized p (ground arith);
      }
      when false e = record {
        positive = p;
        used = u;
        covered =
            All-weaken (λ g. g.1 ≤ latest s.authorized)
              (λ g. g.1 ≤ (if ltb now (latest s.authorized) then latest s.authorized else now))
              (λ g h. ground (arith, h)) s.authorized (All-le-latest s.authorized);
      }
