-- ===== src/Server/Pool/Invariant.antt =====
-- What holds of the pool between two calls.
use system_software.Prelude.{
  ℕ, zero, suc, ◌+◌, ◌<◌, ◌≡◌, inl, inr, refl, sym, ap, ◌∙◌, true, false, some, if◌then◌else◌, set,
  replicate, length, get_elem?, get_elem?-set_self, List, [], ◌∷◌, arith, Bool-cases, Option-cases,
  length-set, length-replicate,
}
use system_software.Prelude.Int.{ℤ, pos, ltb_ℤ, add_int, ◌≤ℤ◌}
use native.Mathlib.Numerals.{add-one}
use system_software.Server.Pool.{
  fd_setsize, FdSet, fd_set, Pool, minus_one, init_pool, free_slot, add_client, remove_client,
  in_set,
}
use system_software.Server.Pool.Slots.{
  occupied, Served, Absent, Distinct, occupied-le, free_slot-some, occupied-set, Served-set,
  Distinct-set, occupied-clear, Absent-clear, Distinct-clear, Served-clear, Served-unwatch,
}

pub record IsValid (p : Pool) : Type 0 where
  pub slots : length p.clientfd ≡ fd_setsize
  pub counted : p.n ≡ pos (occupied p.clientfd)
  pub served : Served p.maxi p.maxfd p.read_set 0 p.clientfd
  pub distinct : Distinct p.clientfd

add_int-one : (k : ℕ) → k < 2000 → add_int (pos k) (pos 1) ≡ pos (k + 1)
unfolding add_int
add_int-one k h = ground arith

add_int-minus_one : (k : ℕ) → k < 2000 → add_int (pos (suc k)) minus_one ≡ pos k
unfolding add_int
add_int-minus_one k h = ground arith

empty-facts :
    (k i : ℕ) (maxi maxfd : ℤ) (w : FdSet)
    → (occupied (replicate k minus_one) ≡ 0)
      × Served maxi maxfd w i (replicate k minus_one)
      × Distinct (replicate k minus_one)
empty-facts zero i maxi maxfd w = (refl, tt, tt)
empty-facts (suc k) i maxi maxfd w =
    let u = empty-facts k (suc i) maxi maxfd w in
    (omega (arith, u.0), (λ h. absurd (omega arith), u.1), (λ h. absurd (omega arith), u.2))

-- The pool that `init_pool` makes is valid, and serves nobody.
pub init_pool-IsValid : (listenfd : ℤ) → IsValid (init_pool listenfd)
unfolding init_pool
init_pool-IsValid listenfd =
    let u = empty-facts fd_setsize 0 minus_one listenfd (fd_set listenfd (λ x. false)) in
    record {
      slots = length-replicate fd_setsize minus_one;
      counted = ap pos (sym u.0);
      served = u.1;
      distinct = u.2;
    }

-- What `add_client` makes of a valid pool and a new descriptor.
pub record Added (connfd : ℤ) (p p' : Pool) : Type 0 where
  pub slot : ℕ
  pub placed : p'.clientfd ≡ set p.clientfd slot connfd
  pub more : occupied p'.clientfd ≡ occupied p.clientfd + 1
  pub valid : IsValid p'

watch-more : (c : ℤ) (w : FdSet) (x : ℤ) → w x ≡ true → fd_set c w x ≡ true
watch-more c w x h = ground arith

in_set-nonneg : (fd : ℤ) → in_set fd ≡ true → pos 0 ≤ℤ fd
in_set-nonneg fd h = ground (arith, h)

-- A descriptor that no slot holds takes a free slot, and the pool stays valid: it is counted,
-- watched, and within `maxi` and `maxfd`.
pub add_client-Added :
    (connfd : ℤ) (p p' : Pool)
    → (pos 0 ≤ℤ connfd → Absent connfd p.clientfd)
    → IsValid p
    → add_client connfd p ≡ some p'
    → Added connfd p p'
unfolding add_client
add_client-Added connfd p p' absent v h = elim (Option-cases (free_slot p.clientfd 0)) [
  | inl e ↦ absurd (ground (arith, e, h))
  | inr (i, e) ↦ elim (Bool-cases (in_set connfd)) [
    | inr out ↦ absurd (ground (arith, e, h, out))
    | inl inside ↦
        let nonneg = in_set-nonneg connfd inside in
        let fresh = absent nonneg in
        let (k, old, place, held, free) = free_slot-some p.clientfd 0 i e in
        let more = occupied-set p.clientfd k old connfd held free nonneg in
        let size = length-set p.clientfd k connfd in
        let few = occupied-le p.clientfd in
        let room = occupied-le (set p.clientfd k connfd) in
        let same : i ≡ k = omega (arith, place) in
        let maxi : ℤ = if ltb_ℤ p.maxi (pos i) then pos i else p.maxi in
        let maxfd : ℤ = if ltb_ℤ p.maxfd connfd then connfd else p.maxfd in
        let watched = fd_set connfd p.read_set in
        let made : p' ≡ record p {
          nready = add_int p.nready minus_one;
          clientfd = set p.clientfd k connfd;
          read_set = watched;
          maxfd = maxfd;
          maxi = maxi;
          n = add_int p.n (pos 1);
        } =
          ground (arith, e, h, same, inside) in
        rw made (record {
          slot = k;
          placed = refl;
          more = more;
          valid = record {
            slots = size ∙ v.slots;
            counted =
                ground (arith, v.counted, more, add_int-one (occupied p.clientfd), few, v.slots);
            served =
                Served-set p.clientfd 0 k connfd p.maxi p.maxfd maxi maxfd p.read_set watched
                  (ground arith) (ground arith) (watch-more connfd p.read_set)
                  (ground (arith, same), ground arith, ground arith) v.served;
            distinct = Distinct-set p.clientfd k connfd fresh v.distinct;
          };
        })
  ]
]

slot_inside : (l : List ℤ) (i : ℕ) (x : ℤ) → get_elem? l i ≡ some x → i < length l
slot_inside [] zero x h = cc
slot_inside [] (suc i) x h = cc
slot_inside (y ∷ l) zero x h = omega arith
slot_inside (y ∷ l) (suc i) x h = omega (arith, slot_inside l i x h)

-- In a valid pool with a client in a slot, `remove_client` with that slot and its descriptor: the slot
-- becomes free and the others stay as they are, there is one client less, the descriptor is in no slot
-- and not watched, and the pool is valid; if `close` fails, nothing changes.
pub remove_client_lem :
    (close : ℤ → ℤ) (connfd : ℤ) (idx : ℕ) (p : Pool)
    → pos 0 ≤ℤ connfd
    → get_elem? p.clientfd idx ≡ some connfd
    → IsValid p
    → let (rc, p') = remove_client close connfd idx p in
      if ltb_ℤ (close connfd) (pos 0)
      then (rc ≡ minus_one) × (p' ≡ p)
      else ((rc ≡ pos 1)
          × IsValid p'
          × (occupied p'.clientfd + 1 ≡ occupied p.clientfd)
          × Absent connfd p'.clientfd
          × (p'.read_set connfd ≡ false)
          × (p'.clientfd ≡ set p.clientfd idx minus_one)
          × (get_elem? p'.clientfd idx ≡ some minus_one))
unfolding remove_client
remove_client_lem close connfd idx p nonneg held v =
    elim (Bool-cases (ltb_ℤ (close connfd) (pos 0))) [
      | inl e ↦ rw e (refl, refl)
      | inr e ↦
          let fewer = occupied-clear p.clientfd idx connfd held nonneg in
          let gone = Absent-clear p.clientfd idx connfd held nonneg v.distinct in
          let left = set p.clientfd idx minus_one in
          let few = occupied-le p.clientfd in
          let less = add_int-minus_one (occupied left) (omega (arith, fewer, few, v.slots)) in
          let count : add_int p.n minus_one ≡ pos (occupied left) =
            rw (v.counted, ← fewer, add-one) less in
          rw e (
            refl,
            record {
              slots = length-set p.clientfd idx minus_one ∙ v.slots;
              counted = count;
              served =
                  Served-unwatch left 0 p.maxi p.maxfd connfd p.read_set gone
                    (Served-clear p.clientfd 0 idx p.maxi p.maxfd p.read_set v.served);
              distinct = Distinct-clear p.clientfd idx v.distinct;
            },
            fewer,
            gone,
            ground arith,
            refl,
            get_elem?-set_self p.clientfd idx minus_one (slot_inside p.clientfd idx connfd held),
          )
    ]
