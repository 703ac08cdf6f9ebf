-- ===== src/Server/Pool/Slots.antt =====
-- Facts about the array of slots: counting, writing a free slot, clearing a used one.
use system_software.Prelude.{
  ℕ, zero, suc, ◌+◌, ◌≤◌, ◌≡◌, ◌≢◌, inl, inr, refl, sym, List, [], ◌∷◌, true, some, if◌then◌else◌,
  set, replicate, length, get_elem?, arith, Bool-cases,
}
use system_software.Prelude.Int.{ℤ, pos, negsuc, ltb_ℤ, ◌<ℤ◌, ◌≤ℤ◌, eq_of_parts}
use system_software.Server.Pool.{FdSet, fd_clr, minus_one, free_slot}

-- How many slots hold a descriptor.
abbrev pub occupied : List ℤ → ℕ
occupied [] = 0
occupied (fd ∷ fds) = (if ltb_ℤ fd (pos 0) then 0 else 1) + occupied fds

-- The slots from `i` on that hold a descriptor lie up to `maxi`; their descriptors are not above
-- `maxfd`, and are watched.
abbrev pub Served : ℤ → ℤ → FdSet → ℕ → List ℤ → Type 0
Served maxi maxfd watched i [] = Unit {0}
Served maxi maxfd watched i (fd ∷ fds) =
    (pos 0 ≤ℤ fd → (pos i ≤ℤ maxi) × (fd ≤ℤ maxfd) × (watched fd ≡ true))
    × Served maxi maxfd watched (suc i) fds

-- No slot holds this descriptor.
abbrev pub Absent : ℤ → List ℤ → Type 0
Absent fd [] = Unit {0}
Absent fd (x ∷ xs) = (x ≢ fd) × Absent fd xs

-- No two slots hold the same descriptor.
abbrev pub Distinct : List ℤ → Type 0
Distinct [] = Unit {0}
Distinct (fd ∷ fds) = (pos 0 ≤ℤ fd → Absent fd fds) × Distinct fds

pub occupied-le : (fds : List ℤ) → occupied fds ≤ length fds
occupied-le [] = omega arith
occupied-le (fd ∷ fds) = ground (arith, occupied-le fds)

-- `free_slot` finds a slot that holds no descriptor.
pub free_slot-some :
    (fds : List ℤ) (i j : ℕ)
    → free_slot fds i ≡ some j
    → (k : ℕ) × (fd : ℤ) × (j ≡ i + k) × (get_elem? fds k ≡ some fd) × (fd <ℤ pos 0)
unfolding free_slot
free_slot-some [] i j h = cc
free_slot-some (fd ∷ fds) i j h = elim (Bool-cases (ltb_ℤ fd (pos 0))) [
  | inl e ↦ (0, fd, ground (arith, h, e), refl, ground arith)
  | inr e ↦
      let (k, x, p, q, r) = free_slot-some fds (suc i) j (ground arith) in
      (suc k, x, omega (arith, p), q, r)
]

-- Writing a descriptor `c` to the slot `k` that is free.
pub occupied-set :
    (fds : List ℤ) (k : ℕ) (old c : ℤ)
    → get_elem? fds k ≡ some old
    → old <ℤ pos 0
    → pos 0 ≤ℤ c
    → occupied (set fds k c) ≡ occupied fds + 1
occupied-set [] k old c h l p = cc
occupied-set (fd ∷ fds) zero old c h l p = ground arith
occupied-set (fd ∷ fds) (suc k) old c h l p = ground (arith, occupied-set fds k old c h l p)

Served-widen :
    (fds : List ℤ) (i : ℕ) (maxi maxfd maxi' maxfd' : ℤ) (w w' : FdSet)
    → maxi ≤ℤ maxi'
    → maxfd ≤ℤ maxfd'
    → ((x : ℤ) → w x ≡ true → w' x ≡ true)
    → Served maxi maxfd w i fds
    → Served maxi' maxfd' w' i fds
Served-widen [] i maxi maxfd maxi' maxfd' w w' p q r v = tt
Served-widen (fd ∷ fds) i maxi maxfd maxi' maxfd' w w' p q r v = (
  λ h. let u = v.0 h in (omega (arith, u.0), omega (arith, u.1), r fd u.2),
  Served-widen fds (suc i) maxi maxfd maxi' maxfd' w w' p q r v.1,
)

pub Served-set :
    (fds : List ℤ) (i k : ℕ) (c maxi maxfd maxi' maxfd' : ℤ) (w w' : FdSet)
    → maxi ≤ℤ maxi'
    → maxfd ≤ℤ maxfd'
    → ((x : ℤ) → w x ≡ true → w' x ≡ true)
    → (pos (i + k) ≤ℤ maxi') × (c ≤ℤ maxfd') × (w' c ≡ true)
    → Served maxi maxfd w i fds
    → Served maxi' maxfd' w' i (set fds k c)
Served-set [] i k c maxi maxfd maxi' maxfd' w w' p q r s v = tt
Served-set (fd ∷ fds) i zero c maxi maxfd maxi' maxfd' w w' p q r s v = (
  λ h. (omega (arith, s.0), s.1, s.2),
  Served-widen fds (suc i) maxi maxfd maxi' maxfd' w w' p q r v.1,
)
Served-set (fd ∷ fds) i (suc k) c maxi maxfd maxi' maxfd' w w' p q r s v = (
  λ h. let u = v.0 h in (omega (arith, u.0), omega (arith, u.1), r fd u.2),
  Served-set fds (suc i) k c maxi maxfd maxi' maxfd' w w' p q r (omega (arith, s.0), s.1, s.2) v.1,
)

pub Absent-set :
    (fds : List ℤ) (k : ℕ) (c fd : ℤ) → c ≢ fd → Absent fd fds → Absent fd (set fds k c)
Absent-set [] k c fd h a = tt
Absent-set (x ∷ fds) zero c fd h a = (h, a.1)
Absent-set (x ∷ fds) (suc k) c fd h a = (a.0, Absent-set fds k c fd h a.1)

pub Distinct-set :
    (fds : List ℤ) (k : ℕ) (c : ℤ) → Absent c fds → Distinct fds → Distinct (set fds k c)
Distinct-set [] k c a d = tt
Distinct-set (fd ∷ fds) zero c a d = (λ h. a.1, d.1)
Distinct-set (fd ∷ fds) (suc k) c a d =
    (λ h. Absent-set fds k c fd (λ e. a.0 (sym e)) (d.0 h), Distinct-set fds k c a.1 d.1)

-- Clearing the slot `k` that holds `fd`.
pub occupied-clear :
    (fds : List ℤ) (k : ℕ) (fd : ℤ)
    → get_elem? fds k ≡ some fd
    → pos 0 ≤ℤ fd
    → occupied (set fds k minus_one) + 1 ≡ occupied fds
occupied-clear [] k fd h p = cc
occupied-clear (x ∷ fds) zero fd h p = ground arith
occupied-clear (x ∷ fds) (suc k) fd h p = ground (arith, occupied-clear fds k fd h p)

minus_one-ne : (fd : ℤ) → pos 0 ≤ℤ fd → minus_one ≢ fd
minus_one-ne (pos n) h e = cc
minus_one-ne (negsuc n) h e = absurd (omega arith)

Absent-ne : (fds : List ℤ) (k : ℕ) (fd x : ℤ) → Absent x fds → get_elem? fds k ≡ some fd → fd ≢ x
Absent-ne [] k fd x a h = absurd (cc)
Absent-ne (y ∷ fds) zero fd x a h = ground (arith, a.0)
Absent-ne (y ∷ fds) (suc k) fd x a h = Absent-ne fds k fd x a.1 h

pub Absent-clear :
    (fds : List ℤ) (k : ℕ) (fd : ℤ)
    → get_elem? fds k ≡ some fd
    → pos 0 ≤ℤ fd
    → Distinct fds
    → Absent fd (set fds k minus_one)
Absent-clear [] k fd h p d = tt
Absent-clear (x ∷ fds) zero fd h p d =
    let same : x ≡ fd = ground arith in (minus_one-ne fd p, rw same at (d.0 (rw same p)))
Absent-clear (x ∷ fds) (suc k) fd h p d =
    (λ e. Absent-ne fds k fd x (d.0 (rw e p)) h (sym e), Absent-clear fds k fd h p d.1)

pub Distinct-clear : (fds : List ℤ) (k : ℕ) → Distinct fds → Distinct (set fds k minus_one)
Distinct-clear [] k d = tt
Distinct-clear (fd ∷ fds) zero d = (λ h. absurd (omega arith), d.1)
Distinct-clear (fd ∷ fds) (suc k) d =
    (λ h. Absent-set fds k minus_one fd (minus_one-ne fd h) (d.0 h), Distinct-clear fds k d.1)

pub Served-clear :
    (fds : List ℤ) (i k : ℕ) (maxi maxfd : ℤ) (w : FdSet)
    → Served maxi maxfd w i fds
    → Served maxi maxfd w i (set fds k minus_one)
Served-clear [] i k maxi maxfd w v = tt
Served-clear (fd ∷ fds) i zero maxi maxfd w v = (λ h. absurd (omega arith), v.1)
Served-clear (fd ∷ fds) i (suc k) maxi maxfd w v =
    (v.0, Served-clear fds (suc i) k maxi maxfd w v.1)

-- Not watching a descriptor that no slot holds.
pub Served-unwatch :
    (fds : List ℤ) (i : ℕ) (maxi maxfd fd : ℤ) (w : FdSet)
    → Absent fd fds
    → Served maxi maxfd w i fds
    → Served maxi maxfd (fd_clr fd w) i fds
Served-unwatch [] i maxi maxfd fd w a v = tt
Served-unwatch (x ∷ fds) i maxi maxfd fd w a v = (
  λ h. let u = v.0 h in (u.0, u.1, ground (arith, u.2, a.0, eq_of_parts x fd)),
  Served-unwatch fds (suc i) maxi maxfd fd w a.1 v.1,
)

pub Absent-free_slots : (k : ℕ) (fd : ℤ) → pos 0 ≤ℤ fd → Absent fd (replicate k minus_one)
Absent-free_slots zero fd h = tt
Absent-free_slots (suc k) fd h = (minus_one-ne fd h, Absent-free_slots k fd h)
