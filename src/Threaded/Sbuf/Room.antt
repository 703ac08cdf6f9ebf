-- ===== src/Threaded/Sbuf/Room.antt =====
-- The semaphores count the elements, the free places and the threads between their operations.
use system_software.Prelude.{ℕ, ◌+◌, ◌≡◌, refl, sym, ◌∙◌, some, get_elem?, set, length, arith}
use system_software.Threaded.Sbuf.Balance.{
  holding, filled, reserved, total, total-set, advance-Balance,
}
use system_software.Threaded.Sbuf.{
  Sbuf, Thread, insert_slots, insert_mutex, insert_write, insert_post, insert_items, insert_done,
  remove_items, remove_mutex, remove_read, remove_post, remove_slots, remove_done, sync_mutex,
  sync_save, sync_done, advance, Begins, Returned, System,
}

-- The counts of a buffer and its threads.
pub record IsRoom (s : System) : Type 0 where
  pub exclusive : s.sbuf.mutex + total holding s.threads ≡ 1
  pub level : s.sbuf.rear ≡ s.sbuf.front + (s.sbuf.items + total filled s.threads)
  pub room :
      s.sbuf.items + total filled s.threads + (s.sbuf.empty_slots + total reserved s.threads)
      ≡ s.sbuf.n
  pub size : length s.sbuf.waiting_connfd ≡ s.sbuf.n

pub advance-IsRoom :
    (s : System) (i : ℕ) (t t' : Thread) (b : Sbuf)
    → IsRoom s
    → get_elem? s.threads i ≡ some t
    → advance t s.sbuf ≡ some (t', b)
    → IsRoom (record { sbuf = b; threads = set s.threads i t' })
advance-IsRoom s i t t' b v at_i h =
    let bal = advance-Balance t t' s.sbuf b h in
    let hold = total-set holding s.threads i t t' at_i in
    let fill = total-set filled s.threads i t t' at_i in
    let res = total-set reserved s.threads i t t' at_i in
    record {
      exclusive = omega (arith, bal.of_mutex, hold, v.exclusive);
      level = omega (arith, bal.of_level, fill, v.level);
      room = omega (arith, bal.of_room, bal.of_n, fill, res, v.room);
      size = bal.of_size ∙ (v.size ∙ sym bal.of_n);
    }

-- A new call changes no count.
unfoldable pub Weightless : Thread → Type 0
Weightless t = (holding t ≡ 0) × (filled t ≡ 0) × (reserved t ≡ 0)

Returned-Weightless : (t : Thread) → Returned t → Weightless t
unfolding Returned Weightless
Returned-Weightless (insert_slots x) r = absurd r
Returned-Weightless (insert_mutex x) r = absurd r
Returned-Weightless (insert_write x) r = absurd r
Returned-Weightless (insert_post x) r = absurd r
Returned-Weightless (insert_items x) r = absurd r
Returned-Weightless (insert_done x) r = (refl, refl, refl)
Returned-Weightless remove_items r = absurd r
Returned-Weightless remove_mutex r = absurd r
Returned-Weightless remove_read r = absurd r
Returned-Weightless (remove_post x) r = absurd r
Returned-Weightless (remove_slots x) r = absurd r
Returned-Weightless (remove_done x) r = (refl, refl, refl)
Returned-Weightless sync_mutex r = absurd r
Returned-Weightless sync_save r = absurd r
Returned-Weightless sync_done r = (refl, refl, refl)

pub Begins-Weightless : (t : Thread) → Begins t → Weightless t
unfolding Begins Weightless
Begins-Weightless (insert_slots x) r = (refl, refl, refl)
Begins-Weightless (insert_mutex x) r = absurd r
Begins-Weightless (insert_write x) r = absurd r
Begins-Weightless (insert_post x) r = absurd r
Begins-Weightless (insert_items x) r = absurd r
Begins-Weightless (insert_done x) r = absurd r
Begins-Weightless remove_items r = (refl, refl, refl)
Begins-Weightless remove_mutex r = absurd r
Begins-Weightless remove_read r = absurd r
Begins-Weightless (remove_post x) r = absurd r
Begins-Weightless (remove_slots x) r = absurd r
Begins-Weightless (remove_done x) r = absurd r
Begins-Weightless sync_mutex r = (refl, refl, refl)
Begins-Weightless sync_save r = absurd r
Begins-Weightless sync_done r = absurd r

pub calls-IsRoom :
    (s : System) (i : ℕ) (t t' : Thread)
    → IsRoom s
    → get_elem? s.threads i ≡ some t
    → Returned t
    → Begins t'
    → IsRoom (record { sbuf = s.sbuf; threads = set s.threads i t' })
unfolding Weightless
calls-IsRoom s i t t' v at_i r g =
    let (a, b, c) = Returned-Weightless t r in
    let (d, e, f) = Begins-Weightless t' g in
    let hold = total-set holding s.threads i t t' at_i in
    let fill = total-set filled s.threads i t t' at_i in
    let res = total-set reserved s.threads i t t' at_i in
    record {
      exclusive = omega (arith, hold, v.exclusive, a, d);
      level = omega (arith, fill, v.level, b, e);
      room = omega (arith, fill, res, v.room, b, c, e, f);
      size = v.size;
    }
