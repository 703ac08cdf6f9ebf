-- ===== src/Server/Rio.antt =====
-- The buffered reading and the full writing of concurrent_stockserver/event_driven/util.c. What the
-- kernel answers to each `read` and `write` is a list of events.
pub mod Line
pub mod Write
use system_software.Prelude.{
  ℕ, zero, suc, ◌+◌, List, [], ◌∷◌, ◌++◌, Bool, true, false, ◌==◌, if◌then◌else◌, ltb, length, take,
  drop, min,
}
use system_software.Prelude.Int.{ℤ}
use system_software.Server.Text.{Bytes}

-- An answer to `read`: bytes (none at the end of the stream), EINTR, or another error. With no
-- answer left the stream has ended.
pub data ReadEvent : Type 0 where
  got : Bytes → ReadEvent
  interrupted failed : ReadEvent

-- `rio_t`: `unread` is the `rio_cnt` bytes at `rio_bufptr`.
pub record Rio : Type 0 where
  pub rio_fd : ℤ
  pub unread : Bytes

unfoldable pub rio_readinitb : ℤ → Rio
rio_readinitb fd = record { rio_fd = fd; unread = [] }

-- How the loop of `rio_read` ends.
pub data Fill : Type 0 where
  filled : Bytes → Fill
  at_end at_error : Fill

-- `while (rp->rio_cnt <= 0)`: the buffer, and the answers that are left.
unfoldable pub fill : Bytes → List ReadEvent → Fill × List ReadEvent
fill (c ∷ cs) env = (filled (c ∷ cs), env)
fill [] [] = (at_end, [])
fill [] (got [] ∷ env) = (at_end, env)
fill [] (got (c ∷ cs) ∷ env) = (filled (c ∷ cs), env)
fill [] (interrupted ∷ env) = fill [] env
fill [] (failed ∷ env) = (at_error, env)

-- What `rio_read` returns: -1, 0, or the number of the bytes that it copies.
pub data Count : Type 0 where
  minus_one : Count
  bytes : Bytes → Count

unfoldable pub rio_read : Rio → ℕ → List ReadEvent → Count × Rio × List ReadEvent
rio_read rp n env =
    let answer = fill rp.unread env in
    elim answer.0 [
      | at_error ↦ (minus_one, record rp { unread = [] }, answer.1)
      | at_end ↦ (bytes [], record rp { unread = [] }, answer.1)
      | filled buf ↦
          let cnt = if ltb (length buf) n then length buf else n in
          (bytes (take cnt buf), record rp { unread = drop cnt buf }, answer.1)
    ]

-- The loop `for (n = 1; n < maxlen; n++)` with `maxlen - n` rounds left; `line` is what stands in
-- `usrbuf`, so that `n` is one more than its length.
unfoldable pub readline_loop : ℕ → Rio → Bytes → List ReadEvent → Count × Rio × List ReadEvent
readline_loop zero rp line env = (bytes line, rp, env)
readline_loop (suc left) rp line env =
    let (rc, rp', env') = rio_read rp 1 env in
    elim rc [
      | minus_one ↦ (minus_one, rp', env')
      | bytes [] ↦ (bytes line, rp', env')
      | bytes (c ∷ cs) ↦
          if c == b'\n'
          then (bytes (line ++ c ∷ []), rp', env')
          else readline_loop left rp' (line ++ c ∷ []) env'
    ]

-- `rio_readlineb`: the line is what stands before the final NUL, its length the result.
unfoldable pub rio_readlineb : Rio → ℕ → List ReadEvent → Count × Rio × List ReadEvent
rio_readlineb rp zero env = (bytes [], rp, env)
rio_readlineb rp (suc rounds) env = readline_loop rounds rp [] env

-- What stands in `usrbuf` when the loop ends, also when it fails: the bytes that were copied to it.
unfoldable pub copied : ℕ → Rio → Bytes → List ReadEvent → Bytes
copied zero rp line env = line
copied (suc left) rp line env =
    let (rc, rp', env') = rio_read rp 1 env in
    elim rc [
      | minus_one ↦ line
      | bytes [] ↦ line
      | bytes (c ∷ cs) ↦
          if c == b'\n' then line ++ c ∷ [] else copied left rp' (line ++ c ∷ []) env'
    ]

-- An answer to `write`: that one byte more than a number was taken, EINTR, or another error.
pub data WriteEvent : Type 0 where
  took_suc : ℕ → WriteEvent
  interrupted failed : WriteEvent

-- How `rio_writen` ends, with the bytes that were written: all of them, -1, or still waiting for an
-- answer.
pub data Written : Type 0 where
  done error waiting : Bytes → Written

-- The loop `while (nleft > 0)`; `out` is what was written before.
unfoldable pub writen_loop : Bytes → Bytes → List WriteEvent → Written
writen_loop out [] env = done out
writen_loop out (c ∷ cs) [] = waiting out
writen_loop out (c ∷ cs) (took_suc k ∷ env) =
    writen_loop (out ++ take (suc k) (c ∷ cs)) (drop (suc k) (c ∷ cs)) env
writen_loop out (c ∷ cs) (interrupted ∷ env) = writen_loop out (c ∷ cs) env
writen_loop out (c ∷ cs) (failed ∷ env) = error out

unfoldable pub rio_writen : Bytes → List WriteEvent → Written
rio_writen usrbuf env = writen_loop [] usrbuf env
