-- ===== src/Threaded/Sbuf/Queue.antt =====
-- The buffer is a queue: what the steps of the threads do to its contents.
use Prim.{tt}
use native.Mathlib.Nat.{mod-add-mod, mod-eq-sub-mod, mod-lt, mod-eq_of_lt}
use system_software.Prelude.{
  ℕ, suc, ◌+◌, ◌-◌, ◌%◌, ◌≡◌, ◌≢◌, ◌<◌, ◌≤◌, refl, sym, subst, ◌∙◌, List, [], ◌∷◌, ◌++◌, Option,
  some, ltb, get_elem?, set, length, arith, Bool-cases, inl, inr, dec_lt, get_elem?-set_self,
  get_elem?-set_ne, length-append,
}
use system_software.Threaded.Sbuf.{
  Waiting, Sbuf, Thread, insert_slots, insert_mutex, insert_write, insert_post, insert_items,
  insert_done, remove_items, remove_mutex, remove_read, remove_post, remove_slots, remove_done,
  sync_mutex, sync_save, sync_done, put, get, advance, System, int_max,
}
use system_software.Threaded.Sbuf.Balance.{filled, total-weight, waits_or_takes, reserved}
use system_software.Threaded.Sbuf.Room.{IsRoom, advance-IsRoom}

-- Places closer than the size of the array are different.
mod-ne : (a d n : ℕ) → 0 < d → d < n → a % n ≢ (a + d) % n
mod-ne a d n h l e =
    let r = a % n in
    let small : r < n = mod-lt a (omega (arith, h, l)) in
    let same : (r + d) % n ≡ r = mod-add-mod a n d ∙ sym e in
    elim (dec_lt (r + d) n) [
      | yes lt ↦ omega (arith, mod-eq_of_lt lt, same, h)
      | no ge ↦
          let wrap = mod-eq-sub-mod {n = r + d} {m = n} (omega (arith, ge)) in
          let back : (r + d - n) % n ≡ r + d - n = mod-eq_of_lt (omega (arith, small, l)) in
          omega (arith, wrap, back, same, l, ge)
    ]

-- The elements of the queue stand in the places behind `front`.
abbrev pub Holds : List Waiting → ℕ → ℕ → List Waiting → Type 0
Holds array n front [] = Unit {0}
Holds array n front (x ∷ q) =
    (get_elem? array ((front + 1) % n) ≡ some x) × Holds array n (suc front) q

Holds-set :
    (array : List Waiting) (n front p : ℕ) (q : List Waiting) (x : Waiting)
    → Holds array n front q
    → front + length q < p
    → p < front + 1 + n
    → Holds (set array (p % n) x) n front q
Holds-set array n front p [] x v l u = tt
Holds-set array n front p (y ∷ q) x v l u =
    let shift : front + 1 + (p - (front + 1)) ≡ p = omega (arith, l) in
    let other =
      subst (λ k. (front + 1) % n ≢ k % n) shift
        (mod-ne (front + 1) (p - (front + 1)) n (omega (arith, l)) (omega (arith, l, u))) in
    (
      get_elem?-set_ne array x (λ e. other (sym e)) ∙ v.0,
      Holds-set array n (suc front) p q x v.1 (omega (arith, l)) (omega (arith, u)),
    )

Holds-snoc :
    (array : List Waiting) (n front : ℕ) (q : List Waiting) (x : Waiting)
    → Holds array n front q
    → get_elem? array ((front + length q + 1) % n) ≡ some x
    → Holds array n front (q ++ x ∷ [])
Holds-snoc array n front [] x v e =
    let here : front + 0 + 1 ≡ front + 1 = omega arith in
    (subst (λ k. get_elem? array (k % n) ≡ some x) here e, tt)
Holds-snoc array n front (y ∷ q) x v e =
    let shift : front + suc (length q) + 1 ≡ suc front + length q + 1 = omega arith in
    (
      v.0,
      Holds-snoc array n (suc front) q x v.1
          (subst (λ k. get_elem? array (k % n) ≡ some x) shift e),
    )

-- The buffer holds the queue, and its counters are as far apart as the queue is long.
pub record Contents (s : Sbuf) (q : List Waiting) : Type 0 where
  pub between : s.rear ≡ s.front + length q
  pub held : Holds s.waiting_connfd s.n s.front q

put-Contents :
    (s : Sbuf) (q : List Waiting) (x : Waiting)
    → length s.waiting_connfd ≡ s.n
    → length q < s.n
    → Contents s q
    → Contents
        (record s {
          waiting_connfd = set s.waiting_connfd ((s.rear + 1) % s.n) x;
          rear = s.rear + 1;
        })
        (q ++ x ∷ [])
put-Contents s q x size l v =
    let far = v.between in
    let next : s.rear + 1 ≡ s.front + length q + 1 = omega (arith, far) in
    let place : (s.rear + 1) % s.n < length s.waiting_connfd =
      subst (λ k. (s.rear + 1) % s.n < k) (sym size) (mod-lt (s.rear + 1) (omega (arith, l))) in
    let kept =
      Holds-set s.waiting_connfd s.n s.front (s.rear + 1) q x v.held (omega (arith, far))
        (omega (arith, far, l)) in
    let array = set s.waiting_connfd ((s.rear + 1) % s.n) x in
    let placed = get_elem?-set_self s.waiting_connfd ((s.rear + 1) % s.n) x place in
    record {
      between = omega (arith, far, length-append q (x ∷ []));
      held =
          Holds-snoc array s.n s.front q x kept
            (subst (λ k. get_elem? array (k % s.n) ≡ some x) next placed);
    }

-- What the operation of a thread does to the queue.
abbrev pub Effect : Thread → Thread → List Waiting → List Waiting → Type 0
Effect (insert_write x) t' q r = r ≡ q ++ x ∷ []
Effect remove_read t' q r = (x : Waiting) × (t' ≡ remove_post x) × (q ≡ x ∷ r)
Effect _ t' q r = r ≡ q

went :
    (t u t' : Thread) (q r : List Waiting) (c b : Sbuf)
    → Path (Option (Thread × Sbuf)) (some (u, c)) (some (t', b))
    → Contents c r
    → Effect t u q r
    → (r : List Waiting) × Contents b r × Effect t t' q r
went t u t' q r c b h v e =
    subst (λ (p : Thread × Sbuf). (r : List Waiting) × Contents p.1 r × Effect t p.0 q r)
      (ground (arith, h)) (r, v, e)

advance-Effect :
    (t t' : Thread) (s b : Sbuf) (q : List Waiting)
    → length s.waiting_connfd ≡ s.n
    → filled t ≤ length q
    → length q + reserved t ≤ s.n
    → Contents s q
    → advance t s ≡ some (t', b)
    → (r : List Waiting) × Contents b r × Effect t t' q r
unfolding advance put get
advance-Effect (insert_slots x) t' s b q size some_left free v h =
    elim (waits_or_takes s.empty_slots) [
      | inl e ↦ absurd (ground (arith, h, e))
      | inr (k, e) ↦
          went (insert_slots x) (insert_mutex x) t' q q (record s { empty_slots = k }) b
            (ground (arith, h, e)) (record { between = v.between; held = v.held }) refl
    ]
advance-Effect (insert_mutex x) t' s b q size some_left free v h = elim (waits_or_takes s.mutex) [
  | inl e ↦ absurd (ground (arith, h, e))
  | inr (k, e) ↦
      went (insert_mutex x) (insert_write x) t' q q (record s { mutex = k }) b
        (ground (arith, h, e)) (record { between = v.between; held = v.held }) refl
]
advance-Effect (insert_write x) t' s b q size some_left free v h =
    elim (Bool-cases (ltb s.rear int_max)) [
      | inr e ↦ absurd (ground (arith, h, e))
      | inl e ↦
          went (insert_write x) (insert_post x) t' q (q ++ x ∷ [])
            (record s {
              waiting_connfd = set s.waiting_connfd ((s.rear + 1) % s.n) x;
              rear = s.rear + 1;
            })
            b (ground (arith, h, e)) (put-Contents s q x size (omega (arith, free)) v) refl
    ]
advance-Effect (insert_post x) t' s b q size some_left free v h =
    went (insert_post x) (insert_items x) t' q q (record s { mutex = s.mutex + 1 }) b h
      (record { between = v.between; held = v.held }) refl
advance-Effect (insert_items x) t' s b q size some_left free v h =
    went (insert_items x) (insert_done x) t' q q (record s { items = s.items + 1 }) b h
      (record { between = v.between; held = v.held }) refl
advance-Effect (insert_done x) t' s b q size some_left free v h = absurd (ground (arith, h))
advance-Effect remove_items t' s b q size some_left free v h = elim (waits_or_takes s.items) [
  | inl e ↦ absurd (ground (arith, h, e))
  | inr (k, e) ↦
      went remove_items remove_mutex t' q q (record s { items = k }) b (ground (arith, h, e))
        (record { between = v.between; held = v.held }) refl
]
advance-Effect remove_mutex t' s b q size some_left free v h = elim (waits_or_takes s.mutex) [
  | inl e ↦ absurd (ground (arith, h, e))
  | inr (k, e) ↦
      went remove_mutex remove_read t' q q (record s { mutex = k }) b (ground (arith, h, e))
        (record { between = v.between; held = v.held }) refl
]
advance-Effect remove_read t' s b [] size some_left free v h = absurd (omega (arith, some_left))
advance-Effect remove_read t' s b (y ∷ q) size some_left free v h =
    elim (Bool-cases (ltb s.front int_max)) [
      | inr e ↦ absurd (ground (arith, h, e))
      | inl e ↦
          went remove_read (remove_post y) t' (y ∷ q) q (record s { front = s.front + 1 }) b
            (ground (arith, h, e, v.held.0)) (taken v) (y, refl, refl)
    ]
  where
    taken : Contents s (y ∷ q) → Contents (record s { front = s.front + 1 }) q
    taken v = record {
      between = omega (arith, v.between);
      held = subst (λ k. Holds s.waiting_connfd s.n k q) (omega arith) v.held.1;
    }
advance-Effect (remove_post x) t' s b q size some_left free v h =
    went (remove_post x) (remove_slots x) t' q q (record s { mutex = s.mutex + 1 }) b h
      (record { between = v.between; held = v.held }) refl
advance-Effect (remove_slots x) t' s b q size some_left free v h =
    went (remove_slots x) (remove_done x) t' q q (record s { empty_slots = s.empty_slots + 1 }) b h
      (record { between = v.between; held = v.held }) refl
advance-Effect (remove_done x) t' s b q size some_left free v h = absurd (ground (arith, h))
advance-Effect sync_mutex t' s b q size some_left free v h = elim (waits_or_takes s.mutex) [
  | inl e ↦ absurd (ground (arith, h, e))
  | inr (k, e) ↦
      went sync_mutex sync_save t' q q (record s { mutex = k }) b (ground (arith, h, e))
        (record { between = v.between; held = v.held }) refl
]
advance-Effect sync_save t' s b q size some_left free v h =
    went sync_save sync_done t' q q (record s { mutex = s.mutex + 1 }) b h
      (record { between = v.between; held = v.held }) refl
advance-Effect sync_done t' s b q size some_left free v h = absurd (ground (arith, h))

-- An operation of any thread keeps the counts, and acts on the queue that the buffer holds as it
-- should: the write of `sbuf_insert` appends its element, the read of `sbuf_remove` takes the first,
-- which there is, and nothing else changes the queue.
pub advance_refines :
    (s : System) (q : List Waiting) (i : ℕ) (t t' : Thread) (b : Sbuf)
    → IsRoom s
    → Contents s.sbuf q
    → get_elem? s.threads i ≡ some t
    → advance t s.sbuf ≡ some (t', b)
    → IsRoom (record { sbuf = b; threads = set s.threads i t' })
      × ((r : List Waiting) × Contents b r × Effect t t' q r)
advance_refines s q i t t' b v c at_i h =
    let fill = total-weight filled s.threads i t at_i in
    let res = total-weight reserved s.threads i t at_i in
    (
      advance-IsRoom s i t t' b v at_i h,
      advance-Effect t t' s.sbuf b q v.size (omega (arith, fill, v.level, c.between))
          (omega (arith, res, v.level, v.room, c.between)) c h,
    )
