-- ===== src/Threaded/Service/Lines.antt =====
-- `service` answers the lines of a connection one by one, however they arrive.
use system_software.Prelude.{
  ℕ, zero, suc, ◌+◌, ◌<◌, ◌≤◌, ◌≡◌, refl, ap, ◌∙◌, List, [], ◌∷◌, ◌++◌, Option, none, some, Bool,
  length, arith, append_assoc, drop,
}
use system_software.Server.Text.{Bytes}
use system_software.Server.Tree.{Status}
use system_software.Server.StockFile.{maxline}
use system_software.Server.Parser.{Command, parser}
use system_software.Server.Rio.{Rio, ReadEvent, Count, rio_readlineb, minus_one, bytes}
use system_software.Server.Rio.Line.{IsClean, next_line, remaining, OneLine, rio_readlineb_lem}
use system_software.Server.Event.{line_buffer}
use system_software.Threaded.Service.{answer, respond_line, service}

-- A line without its newline, and what the parser makes of it.
pub record Request : Type 0 where
  pub text : Bytes
  pub parsed : Status × Option Command

-- The parser returns that, whatever stands behind the line in the buffer.
pub record IsRequest (q : Request) : Type 0 where
  pub one_line : OneLine q.text
  pub short : length q.text + 1 < maxline
  pub parses :
      (junk : Bytes) → parser (q.text ++ b'\n' ∷ 0 ∷ junk) (suc (length q.text)) ≡ some q.parsed

abbrev pub AreRequests : List Request → Type 0
AreRequests [] = Unit {0}
AreRequests (q ∷ qs) = IsRequest q × AreRequests qs

-- What the client sends.
abbrev pub joined : List Request → Bytes
joined [] = []
joined (q ∷ qs) = q.text ++ b'\n' ∷ joined qs

next_line-text :
    (max : ℕ) (text rest : Bytes)
    → OneLine text
    → length text < max
    → next_line max (text ++ b'\n' ∷ rest) ≡ (text ++ b'\n' ∷ [], rest)
unfolding next_line
next_line-text zero text rest o h = absurd (omega (arith, h))
next_line-text (suc max) [] rest o h = refl
next_line-text (suc max) (c ∷ cs) rest o h =
    ground (arith, o.0, next_line-text max cs rest o.1 (omega (arith, h)))

buffer-eq :
    (text old : Bytes)
    → line_buffer (text ++ b'\n' ∷ []) old
      ≡ text ++ b'\n' ∷ 0 ∷ drop (suc (length (text ++ b'\n' ∷ []))) old
buffer-eq text old =
    append_assoc text (b'\n' ∷ []) (0 ∷ drop (suc (length (text ++ b'\n' ∷ []))) old)

length-newline : (text : Bytes) → length (text ++ b'\n' ∷ []) ≡ suc (length text)
length-newline [] = refl
length-newline (c ∷ cs) = ap suc (length-newline cs)

module _ {W : Type 0} (fp : Command → W → Option (Status × W × Bytes))
    (rio_writen : Bytes → W → Option W) (socket_close : W → W) (literal : Bytes → Bytes)
    (stale : Bytes → Bytes) where
  abbrev replied : Bool → Status × Option Command → W → Option (Bool × W)
  replied = answer fp rio_writen socket_close literal stale

  abbrev reaction : Bytes → ℕ → Bool → W → Option (Bool × W)
  reaction = respond_line fp rio_writen socket_close literal stale

  abbrev serve : ℕ → Bytes → Bool → Rio → List ReadEvent → W → Option W
  serve = service fp rio_writen socket_close literal stale

  -- The lines answered one after the other, then the end of the stream.
  unfoldable pub run_all : List Request → Bool → W → Option W
  run_all [] assigned w = some (socket_close w)
  run_all (q ∷ qs) assigned w = elim (replied assigned q.parsed w) [
    | none ↦ none
    | some (assigned', w') ↦ run_all qs assigned' w'
  ]

  respond-request :
      (q : Request) (old : Bytes) (assigned : Bool) (w : W)
      → IsRequest q
      → reaction (line_buffer (q.text ++ b'\n' ∷ []) old) (length (q.text ++ b'\n' ∷ [])) assigned w
        ≡ replied assigned q.parsed w
  unfolding respond_line
  respond-request q old assigned w v =
      let junk = drop (suc (length (q.text ++ b'\n' ∷ []))) old in
      let parsed : parser (line_buffer (q.text ++ b'\n' ∷ []) old) (length (q.text ++ b'\n' ∷ []))
          ≡ some q.parsed =
        ap (λ t. parser t (length (q.text ++ b'\n' ∷ []))) (buffer-eq q.text old)
        ∙ ap (λ k. parser (q.text ++ b'\n' ∷ 0 ∷ junk) k) (length-newline q.text)
        ∙ v.parses junk in
      ap (λ r. elim r [ none ↦ none | some p ↦ replied assigned p w ]) parsed

  -- What `service` does with the outcome of the reading.
  abbrev outcome : ℕ → Bytes → Bool → W → Count × Rio × List ReadEvent → Option W
  outcome fuel old assigned w t = elim t.0 [
    | bytes [] ↦ some (socket_close w)
    | bytes (c ∷ cs) ↦
        let buf' = line_buffer (c ∷ cs) old in
        elim (reaction buf' (length (c ∷ cs)) assigned w) [
          | none ↦ none
          | some (assigned', w') ↦ serve fuel buf' assigned' t.1 t.2 w'
        ]
    | minus_one ↦ elim (reaction (stale old) 0 assigned w) [
      | none ↦ none
      | some (assigned', w') ↦ serve fuel (stale old) assigned' t.1 t.2 w'
    ]
  ]

  service-outcome :
      (fuel : ℕ) (old : Bytes) (assigned : Bool) (rp : Rio) (env : List ReadEvent) (w : W)
      → serve (suc fuel) old assigned rp env w
        ≡ outcome fuel old assigned w (rio_readlineb rp maxline env)
  unfolding service
  service-outcome fuel old assigned rp env w = refl

  outcome-line :
      (fuel : ℕ) (line old : Bytes) (assigned : Bool) (rp : Rio) (env : List ReadEvent) (w : W)
      → 1 ≤ length line
      → outcome fuel old assigned w (bytes line, rp, env)
        ≡ elim (reaction (line_buffer line old) (length line) assigned w) [
          | none ↦ none
          | some (assigned', w') ↦ serve fuel (line_buffer line old) assigned' rp env w'
        ]
  outcome-line fuel [] old assigned rp env w h = absurd (omega (arith, h))
  outcome-line fuel (c ∷ cs) old assigned rp env w h = refl

  same_rest :
      (r : Option (Bool × W)) (f g : Bool → W → Option W)
      → ((assigned : Bool) (w : W) → f assigned w ≡ g assigned w)
      → elim r [ none ↦ none | some (a, w) ↦ f a w ] ≡ elim r [ none ↦ none | some (a, w) ↦ g a w ]
  same_rest none f g h = refl
  same_rest (some (a, w)) f g h = h a w

  -- On a stream without read errors that carries lines, each shorter than MAXLINE - 1 bytes and parsed
  -- the same whatever stands behind it, `service` answers each as the parser understood it, in order,
  -- and closes the connection at the end, however the bytes arrive; more fuel than lines is enough.
  pub service-requests :
      (qs : List Request) (fuel : ℕ) (old : Bytes) (assigned : Bool) (rp : Rio)
      (env : List ReadEvent) (w : W)
      → AreRequests qs
      → IsClean env
      → remaining rp env ≡ joined qs
      → length qs < fuel
      → serve fuel old assigned rp env w ≡ run_all qs assigned w
  unfolding run_all next_line
  service-requests qs zero old assigned rp env w are clean whole enough =
      absurd (omega (arith, enough))
  service-requests [] (suc fuel) old assigned rp env w are clean whole enough =
      let (rp', env', read, rest, clean') = rio_readlineb_lem rp 8191 env clean in
      service-outcome fuel old assigned rp env w
      ∙ ap (outcome fuel old assigned w)
          (read ∙ ap (λ s. (bytes (next_line 8191 s).0, rp', env')) whole)
  service-requests (q ∷ qs) (suc fuel) old assigned rp env w (is, are) clean whole enough =
      let (rp', env', read, rest, clean') = rio_readlineb_lem rp 8191 env clean in
      let line = q.text ++ b'\n' ∷ [] in
      let split = next_line-text 8191 q.text (joined qs) is.one_line (omega (arith, is.short)) in
      service-outcome fuel old assigned rp env w
      ∙ ap (outcome fuel old assigned w) (
          read
          ∙ ap (λ s. (bytes (next_line 8191 s).0, rp', env')) whole
          ∙ ap (λ t. (bytes t.0, rp', env')) split)
      ∙ outcome-line fuel line old assigned rp' env' w (omega (arith, length-newline q.text))
      ∙ ap
          (λ r. elim r [
            | none ↦ none
            | some (a, w') ↦ serve fuel (line_buffer line old) a rp' env' w'
          ])
          (respond-request q old assigned w is)
      ∙ same_rest (replied assigned q.parsed w)
          (λ a w'. serve fuel (line_buffer line old) a rp' env' w') (λ a w'. run_all qs a w')
          (λ a w'.
            service-requests qs fuel (line_buffer line old) a rp' env' w' are clean'
              (rest ∙ ap (λ s. (next_line 8191 s).1) whole ∙ ap (λ t. t.1) split)
              (omega (arith, enough)))
