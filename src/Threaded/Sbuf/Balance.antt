-- ===== src/Threaded/Sbuf/Balance.antt =====
-- What each operation of a thread does to the counts that the semaphores keep.
use system_software.Prelude.{
  ℕ, zero, suc, ◌+◌, ◌≡◌, ◌≤◌, refl, ap, subst, List, [], ◌∷◌, Option, some, ltb, get_elem?, set,
  length, arith, ◌%◌, ◌⊎◌, length-set, Option-cases, Bool-cases, inl, inr,
}
use system_software.Threaded.Sbuf.{
  Sbuf, Thread, insert_slots, insert_mutex, insert_write, insert_post, insert_items, insert_done,
  remove_items, remove_mutex, remove_read, remove_post, remove_slots, remove_done, sync_mutex,
  sync_save, sync_done, int_max, put, get, advance,
}

-- 1 for a thread that has taken the mutex.
abbrev pub holding : Thread → ℕ
holding (insert_write x) = 1
holding (insert_post x) = 1
holding remove_read = 1
holding (remove_post x) = 1
holding sync_save = 1
holding _ = 0

-- 1 for a thread that has written and not counted its element, or counted off and not read one.
abbrev pub filled : Thread → ℕ
filled (insert_post x) = 1
filled (insert_items x) = 1
filled remove_mutex = 1
filled remove_read = 1
filled _ = 0

-- 1 for a thread that has counted off and not filled a place, or emptied and not counted one.
abbrev pub reserved : Thread → ℕ
reserved (insert_mutex x) = 1
reserved (insert_write x) = 1
reserved (remove_post x) = 1
reserved (remove_slots x) = 1
reserved _ = 0

abbrev pub total : (Thread → ℕ) → List Thread → ℕ
total w [] = 0
total w (t ∷ ts) = w t + total w ts

pub total-set :
    (w : Thread → ℕ) (ts : List Thread) (i : ℕ) (t t' : Thread)
    → get_elem? ts i ≡ some t
    → total w (set ts i t') + w t ≡ total w ts + w t'
total-set w [] i t t' h = absurd (ground (arith, h))
total-set w (x ∷ ts) zero t t' h = let e : w x ≡ w t = ap w (ground (arith, h)) in omega (arith, e)
total-set w (x ∷ ts) (suc i) t t' h = omega (arith, total-set w ts i t t' h)

pub total-weight :
    (w : Thread → ℕ) (ts : List Thread) (i : ℕ) (t : Thread)
    → get_elem? ts i ≡ some t
    → w t ≤ total w ts
total-weight w [] i t h = absurd (ground (arith, h))
total-weight w (x ∷ ts) zero t h = let e : w x ≡ w t = ap w (ground (arith, h)) in omega (arith, e)
total-weight w (x ∷ ts) (suc i) t h = omega (arith, total-weight w ts i t h)

-- What an operation of a thread does to the counts.
pub record Balance (t t' : Thread) (s b : Sbuf) : Type 0 where
  pub of_mutex : b.mutex + holding t' ≡ s.mutex + holding t
  pub of_level :
      b.rear + (s.front + (s.items + filled t)) ≡ s.rear + (b.front + (b.items + filled t'))
  pub of_room :
      b.items + filled t' + (b.empty_slots + reserved t')
      ≡ s.items + filled t + (s.empty_slots + reserved t)
  pub of_n : b.n ≡ s.n
  pub of_size : length b.waiting_connfd ≡ length s.waiting_connfd

became :
    (t u t' : Thread) (s c b : Sbuf)
    → Path (Option (Thread × Sbuf)) (some (u, c)) (some (t', b))
    → Balance t u s c
    → Balance t t' s b
became t u t' s c b h v = subst (λ (p : Thread × Sbuf). Balance t p.0 s p.1) (ground (arith, h)) v

pub waits_or_takes : (k : ℕ) → (k ≡ 0) ⊎ ((j : ℕ) × (k ≡ suc j))
waits_or_takes zero = inl refl
waits_or_takes (suc k) = inr (k, refl)

pub advance-Balance : (t t' : Thread) (s b : Sbuf) → advance t s ≡ some (t', b) → Balance t t' s b
unfolding advance put get
advance-Balance (insert_slots x) t' s b h = elim (waits_or_takes s.empty_slots) [
  | inl e ↦ absurd (ground (arith, h, e))
  | inr (k, e) ↦
      became (insert_slots x) (insert_mutex x) t' s (record s { empty_slots = k }) b
        (ground (arith, h, e))
        (record {
          of_mutex = omega (arith, e);
          of_level = omega (arith, e);
          of_room = omega (arith, e);
          of_n = refl;
          of_size = refl;
        })
]
advance-Balance (insert_mutex x) t' s b h = elim (waits_or_takes s.mutex) [
  | inl e ↦ absurd (ground (arith, h, e))
  | inr (k, e) ↦
      became (insert_mutex x) (insert_write x) t' s (record s { mutex = k }) b
        (ground (arith, h, e))
        (record {
          of_mutex = omega (arith, e);
          of_level = omega (arith, e);
          of_room = omega (arith, e);
          of_n = refl;
          of_size = refl;
        })
]
advance-Balance (insert_write x) t' s b h = elim (Bool-cases (ltb s.rear int_max)) [
  | inr e ↦ absurd (ground (arith, h, e))
  | inl e ↦
      became (insert_write x) (insert_post x) t' s
        (record s {
          waiting_connfd = set s.waiting_connfd ((s.rear + 1) % s.n) x;
          rear = s.rear + 1;
        })
        b (ground (arith, h, e))
        (record {
          of_mutex = omega (arith);
          of_level = omega (arith);
          of_room = omega (arith);
          of_n = refl;
          of_size = length-set s.waiting_connfd ((s.rear + 1) % s.n) x;
        })
]
advance-Balance (insert_post x) t' s b h =
    became (insert_post x) (insert_items x) t' s (record s { mutex = s.mutex + 1 }) b h
      (record {
        of_mutex = omega (arith);
        of_level = omega (arith);
        of_room = omega (arith);
        of_n = refl;
        of_size = refl;
      })
advance-Balance (insert_items x) t' s b h =
    became (insert_items x) (insert_done x) t' s (record s { items = s.items + 1 }) b h
      (record {
        of_mutex = omega (arith);
        of_level = omega (arith);
        of_room = omega (arith);
        of_n = refl;
        of_size = refl;
      })
advance-Balance (insert_done x) t' s b h = absurd (ground (arith, h))
advance-Balance remove_items t' s b h = elim (waits_or_takes s.items) [
  | inl e ↦ absurd (ground (arith, h, e))
  | inr (k, e) ↦
      became (remove_items) (remove_mutex) t' s (record s { items = k }) b (ground (arith, h, e))
        (record {
          of_mutex = omega (arith, e);
          of_level = omega (arith, e);
          of_room = omega (arith, e);
          of_n = refl;
          of_size = refl;
        })
]
advance-Balance remove_mutex t' s b h = elim (waits_or_takes s.mutex) [
  | inl e ↦ absurd (ground (arith, h, e))
  | inr (k, e) ↦
      became (remove_mutex) (remove_read) t' s (record s { mutex = k }) b (ground (arith, h, e))
        (record {
          of_mutex = omega (arith, e);
          of_level = omega (arith, e);
          of_room = omega (arith, e);
          of_n = refl;
          of_size = refl;
        })
]
advance-Balance remove_read t' s b h = elim (Bool-cases (ltb s.front int_max)) [
  | inr e ↦ absurd (ground (arith, h, e))
  | inl e ↦ elim (Option-cases (get_elem? s.waiting_connfd ((s.front + 1) % s.n))) [
    | inl q ↦ absurd (ground (arith, h, e, q))
    | inr (x, q) ↦
        became remove_read (remove_post x) t' s (record s { front = s.front + 1 }) b
          (ground (arith, h, e, q))
          (record {
            of_mutex = omega (arith);
            of_level = omega (arith);
            of_room = omega (arith);
            of_n = refl;
            of_size = refl;
          })
  ]
]
advance-Balance (remove_post x) t' s b h =
    became (remove_post x) (remove_slots x) t' s (record s { mutex = s.mutex + 1 }) b h
      (record {
        of_mutex = omega (arith);
        of_level = omega (arith);
        of_room = omega (arith);
        of_n = refl;
        of_size = refl;
      })
advance-Balance (remove_slots x) t' s b h =
    became (remove_slots x) (remove_done x) t' s (record s { empty_slots = s.empty_slots + 1 }) b h
      (record {
        of_mutex = omega (arith);
        of_level = omega (arith);
        of_room = omega (arith);
        of_n = refl;
        of_size = refl;
      })
advance-Balance (remove_done x) t' s b h = absurd (ground (arith, h))
advance-Balance sync_mutex t' s b h = elim (waits_or_takes s.mutex) [
  | inl e ↦ absurd (ground (arith, h, e))
  | inr (k, e) ↦
      became (sync_mutex) (sync_save) t' s (record s { mutex = k }) b (ground (arith, h, e))
        (record {
          of_mutex = omega (arith, e);
          of_level = omega (arith, e);
          of_room = omega (arith, e);
          of_n = refl;
          of_size = refl;
        })
]
advance-Balance sync_save t' s b h =
    became (sync_save) (sync_done) t' s (record s { mutex = s.mutex + 1 }) b h
      (record {
        of_mutex = omega (arith);
        of_level = omega (arith);
        of_room = omega (arith);
        of_n = refl;
        of_size = refl;
      })
advance-Balance sync_done t' s b h = absurd (ground (arith, h))
