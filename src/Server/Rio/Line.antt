-- ===== src/Server/Rio/Line.antt =====
-- `rio_readlineb` returns the next line of the stream, however the kernel cuts it into pieces.
use system_software.Prelude.{
  ℕ, zero, suc, ◌<◌, ◌≡◌, refl, List, [], ◌∷◌, ◌++◌, false, ◌==◌, if◌then◌else◌, length, arith,
  append_assoc, append-nil, Bool-cases, inl, inr,
}
use system_software.Prelude.Int.{ℤ}
use system_software.Server.Text.{Bytes}
use system_software.Server.Rio.{
  ReadEvent, got, Rio, fill, bytes, rio_read, readline_loop, rio_readinitb, rio_readlineb,
}

-- A stream without errors that ends only at its end.
abbrev pub IsClean : List ReadEvent → Type 0
IsClean [] = Unit {0}
IsClean (got [] ∷ env) = ⊥
IsClean (got (c ∷ cs) ∷ env) = IsClean env
IsClean (ReadEvent.interrupted ∷ env) = IsClean env
IsClean (ReadEvent.failed ∷ env) = ⊥

-- All bytes that the answers hold.
unfoldable pub stream : List ReadEvent → Bytes
stream [] = []
stream (got s ∷ env) = s ++ stream env
stream (ReadEvent.interrupted ∷ env) = stream env
stream (ReadEvent.failed ∷ env) = []

-- The bytes up to the first newline, at most `max` of them, and the rest.
unfoldable pub next_line : ℕ → Bytes → Bytes × Bytes
next_line zero s = ([], s)
next_line (suc max) [] = ([], [])
next_line (suc max) (c ∷ s) =
    let (line, rest) = next_line max s in if c == b'\n' then (c ∷ [], s) else (c ∷ line, rest)

-- What is still to be read: the buffer, and then the stream.
abbrev pub remaining : Rio → List ReadEvent → Bytes
remaining rp env = rp.unread ++ stream env

-- One byte is read, or the end is met.
data ReadsByte (rp : Rio) (env : List ReadEvent) : Type 0 where
  byte :
      (c : ℕ) (rp' : Rio) (env' : List ReadEvent)
      → rio_read rp 1 env ≡ (bytes (c ∷ []), rp', env')
      → remaining rp env ≡ c ∷ remaining rp' env'
      → rp'.rio_fd ≡ rp.rio_fd
      → IsClean env'
      → ReadsByte rp env
  end_met :
      (rp' : Rio) (env' : List ReadEvent)
      → rio_read rp 1 env ≡ (bytes [], rp', env')
      → remaining rp env ≡ []
      → remaining rp' env' ≡ []
      → IsClean env'
      → ReadsByte rp env

take_one :
    (fd : ℤ) (c : ℕ) (cs : Bytes) (env : List ReadEvent)
    → IsClean env
    → ReadsByte (record { rio_fd = fd; unread = c ∷ cs }) env
take_one fd c cs env h =
    byte c (record { rio_fd = fd; unread = cs }) env (unfold rio_read fill in ground arith) refl
      refl h

skip_interrupted :
    (fd : ℤ) (env : List ReadEvent)
    → ReadsByte (record { rio_fd = fd; unread = [] }) env
    → ReadsByte (record { rio_fd = fd; unread = [] }) (ReadEvent.interrupted ∷ env)
unfolding rio_read fill stream
skip_interrupted fd env (byte c rp' env' e r f h) = byte c rp' env' e r f h
skip_interrupted fd env (end_met rp' env' e r f h) = end_met rp' env' e r f h

refill :
    (fd : ℤ) (env : List ReadEvent)
    → IsClean env
    → ReadsByte (record { rio_fd = fd; unread = [] }) env
unfolding rio_read fill stream
refill fd [] h = end_met (record { rio_fd = fd; unread = [] }) [] refl refl refl tt
refill fd (got [] ∷ env) h = elim h [ ]
refill fd (got (c ∷ cs) ∷ env) h =
    byte c (record { rio_fd = fd; unread = cs }) env (ground arith) refl refl h
refill fd (ReadEvent.interrupted ∷ env) h = skip_interrupted fd env (refill fd env h)
refill fd (ReadEvent.failed ∷ env) h = elim h [ ]

read_byte :
    (fd : ℤ) (buf : Bytes) (env : List ReadEvent)
    → IsClean env
    → ReadsByte (record { rio_fd = fd; unread = buf }) env
read_byte fd [] env h = refill fd env h
read_byte fd (c ∷ cs) env h = take_one fd c cs env h

rio_read-ReadsByte : (rp : Rio) (env : List ReadEvent) → IsClean env → ReadsByte rp env
rio_read-ReadsByte rp env h = read_byte rp.rio_fd rp.unread env h

-- The line that the loop adds to what was read before, and what stays to be read.
record Loops (left : ℕ) (rp : Rio) (line : Bytes) (env : List ReadEvent) : Type 0 where
  out_rp : Rio
  out_env : List ReadEvent
  result :
      readline_loop left rp line env
      ≡ (bytes (line ++ (next_line left (remaining rp env)).0), out_rp, out_env)
  rest : remaining out_rp out_env ≡ (next_line left (remaining rp env)).1
  clean : IsClean out_env

loop-Loops :
    (left : ℕ) (rp : Rio) (line : Bytes) (env : List ReadEvent)
    → IsClean env
    → Loops left rp line env
unfolding readline_loop next_line
loop-Loops zero rp line env h = record {
  out_rp = rp;
  out_env = env;
  result = rw (append-nil line) refl;
  rest = refl;
  clean = h;
}
loop-Loops (suc left) rp line env h = step (rio_read-ReadsByte rp env h) (loop-Loops left)
  where
    step :
        ReadsByte rp env
        → ((rp : Rio) (line : Bytes) (env : List ReadEvent) → IsClean env → Loops left rp line env)
        → Loops (suc left) rp line env
    step (end_met rp' env' e r f k) more = record {
      out_rp = rp';
      out_env = env';
      result = rw r (rw (append-nil line) (ground (arith, e)));
      rest = rw r f;
      clean = k;
    }
    step (byte c rp' env' e r f k) more = elim (Bool-cases (c == b'\n')) [
      | inl nl ↦ record {
        out_rp = rp';
        out_env = env';
        result = rw (r, nl) (ground (arith, e, nl));
        rest = rw (r, nl) refl;
        clean = k;
      }
      | inr other ↦
          let m = more rp' (line ++ c ∷ []) env' k in
          record {
            out_rp = m.out_rp;
            out_env = m.out_env;
            result =
                rw (r, other)
                  (ground (
                    arith,
                    e,
                    other,
                    m.result,
                    append_assoc line (c ∷ []) (next_line left (remaining rp' env')).0,
                  ));
            rest = rw (r, other) m.rest;
            clean = m.clean;
          }
    ]

-- On a stream without errors `rio_readlineb` returns the bytes up to the next newline, but at most
-- `maxlen - 1`, and what is read later is what follows them, whatever the pieces that `read`
-- returned and however often it was interrupted.
pub rio_readlineb_lem :
    (rp : Rio) (rounds : ℕ) (env : List ReadEvent)
    → IsClean env
    → (rp' : Rio) × (env' : List ReadEvent) × (rio_readlineb rp (suc rounds) env
        ≡ (bytes (next_line rounds (remaining rp env)).0, rp', env'))
      × (remaining rp' env' ≡ (next_line rounds (remaining rp env)).1)
      × IsClean env'
unfolding rio_readlineb
rio_readlineb_lem rp rounds env h =
    let m = loop-Loops rounds rp [] env h in (m.out_rp, m.out_env, m.result, m.rest, m.clean)

-- No newline.
abbrev pub OneLine : Bytes → Type 0
OneLine [] = Unit {0}
OneLine (c ∷ cs) = ((c == b'\n') ≡ false) × OneLine cs

-- A line that is in the buffer is read from it, and what stands behind it stays there.
readline_loop-buffered :
    (left : ℕ) (fd : ℤ) (line more acc : Bytes) (env : List ReadEvent)
    → OneLine line
    → length line < left
    → readline_loop left (record { rio_fd = fd; unread = line ++ b'\n' ∷ more }) acc env
      ≡ (bytes (acc ++ (line ++ b'\n' ∷ [])), record { rio_fd = fd; unread = more }, env)
unfolding readline_loop rio_read fill
readline_loop-buffered zero fd line more acc env h l = absurd (omega arith)
readline_loop-buffered (suc left) fd [] more acc env h l = ground arith
readline_loop-buffered (suc left) fd (c ∷ line) more acc env h l = ground (
  arith,
  h.0,
  readline_loop-buffered left fd line more (acc ++ c ∷ []) env h.1 (omega arith),
  append_assoc acc (c ∷ []) (line ++ b'\n' ∷ []),
)

-- So too if one `read` brings the line with other bytes behind it.
pub rio_readlineb-got :
    (rounds : ℕ) (fd : ℤ) (line more : Bytes) (env : List ReadEvent)
    → OneLine line
    → length line < rounds
    → rio_readlineb (rio_readinitb fd) (suc rounds) (got (line ++ b'\n' ∷ more) ∷ env)
      ≡ (bytes (line ++ b'\n' ∷ []), record { rio_fd = fd; unread = more }, env)
unfolding rio_readlineb rio_readinitb
rio_readlineb-got (suc rounds) fd [] more env h l =
    unfold readline_loop rio_read fill in ground arith
rio_readlineb-got (suc rounds) fd (c ∷ line) more env h l =
    unfold readline_loop rio_read fill in
    ground (arith, h.0, readline_loop-buffered rounds fd line more (c ∷ []) env h.1 (omega arith))
rio_readlineb-got zero fd line more env h l = absurd (omega arith)
