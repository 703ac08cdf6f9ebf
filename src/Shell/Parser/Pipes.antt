-- ===== src/Shell/Parser/Pipes.antt =====
-- Whole lines of the shell: commands of the table with a pipe between them.
use Prim.{tt}
use system_software.Prelude.{
  ℕ, zero, suc, ◌+◌, ◌-◌, ◌≡◌, ◌<◌, ◌≤◌, refl, sym, ap, subst, ◌∙◌, List, [], ◌∷◌, ◌++◌, true,
  false, not, some, ◌==◌, length, arith, get_elem?, append_assoc, inl, inr, length-append, map,
}
use system_software.Server.Text.{Bytes}
use system_software.Server.Parser.Words.{scan_until-append}
use system_software.Shell.Parser.{
  Entry, Command, Status, ok, buffering, foreground, command_list, at, blank, skip, skip_blank,
  find_name, find_shell_command, name_size, has_room, parser_loop, parser, max_args, search, starts,
}
use system_software.Shell.Parser.Search.{Each, each_at}
use system_software.Shell.Parser.Arguments.{
  AreBlank, AreArguments, joined, words, IsEnd, front, find_arguments-words,
}

-- What the parser makes of a name of the table, whatever stands in front and behind.
Named : Entry → Type 0
Named e =
    (rest : Bytes)
    → ((e.name ++ rest ≡ at (e.name ++ rest) 0 ∷ skip 1 (e.name ++ rest))
        × (blank (at (e.name ++ rest) 0) ≡ false)
        × ((at (e.name ++ rest) 0 == b'\n') ≡ false)
        × (find_name (e.name ++ rest) ≡ some (some (e, rest))))

named : Each Named command_list
unfolding Each Named search starts find_name
named = (
  λ rest. (refl, refl, refl, refl),
  (
    λ rest. (refl, refl, refl, refl),
    (
      λ rest. (refl, refl, refl, refl),
      (
        λ rest. (refl, refl, refl, refl),
        (
          λ rest. (refl, refl, refl, refl),
          (
            λ rest. (refl, refl, refl, refl),
            (
              λ rest. (refl, refl, refl, refl),
              (
                λ rest. (refl, refl, refl, refl),
                (
                  λ rest. (refl, refl, refl, refl),
                  (
                    λ rest. (refl, refl, refl, refl),
                    (
                      λ rest. (refl, refl, refl, refl),
                      (
                        λ rest. (refl, refl, refl, refl),
                        (
                          λ rest. (refl, refl, refl, refl),
                          (
                            λ rest. (refl, refl, refl, refl),
                            (
                              λ rest. (refl, refl, refl, refl),
                              (
                                λ rest. (refl, refl, refl, refl),
                                (
                                  λ rest. (refl, refl, refl, refl),
                                  (
                                    λ rest. (refl, refl, refl, refl),
                                    (
                                      λ rest. (refl, refl, refl, refl),
                                      (
                                        λ rest. (refl, refl, refl, refl),
                                        (
                                          λ rest. (refl, refl, refl, refl),
                                          (
                                            λ rest. (refl, refl, refl, refl),
                                            (
                                              λ rest. (refl, refl, refl, refl),
                                              (
                                                λ rest. (refl, refl, refl, refl),
                                                (
                                                  λ rest. (refl, refl, refl, refl),
                                                  (
                                                    λ rest. (refl, refl, refl, refl),
                                                    (
                                                      λ rest. (refl, refl, refl, refl),
                                                      (
                                                        λ rest. (refl, refl, refl, refl),
                                                        (
                                                          λ rest. (refl, refl, refl, refl),
                                                          (λ rest. (refl, refl, refl, refl), tt),
                                                        ),
                                                      ),
                                                    ),
                                                  ),
                                                ),
                                              ),
                                            ),
                                          ),
                                        ),
                                      ),
                                    ),
                                  ),
                                ),
                              ),
                            ),
                          ),
                        ),
                      ),
                    ),
                  ),
                ),
              ),
            ),
          ),
        ),
      ),
    ),
  ),
)

skip_blank-append :
    (pre s : Bytes) (c : ℕ) (tail : Bytes)
    → AreBlank pre
    → s ≡ c ∷ tail
    → blank c ≡ false
    → skip_blank (pre ++ s) ≡ some (pre, s)
unfolding AreBlank
skip_blank-append pre s c tail h e n =
    subst (λ l. skip_blank (pre ++ l) ≡ some (pre, l)) (sym e)
      (scan_until-append (λ x. not (blank x)) pre c tail h (ground (arith, n)))

-- One command of a line: blanks, a name of the table, blanks, and arguments with the blanks behind
-- them.
pub record Segment : Type 0 where
  pub pre : Bytes
  pub entry : Entry
  pub gap : Bytes
  pub args : List (Bytes × Bytes)

unfoldable pub text : Segment → Bytes → Bytes
text g end = g.pre ++ (g.entry.name ++ (g.gap ++ joined g.args end))

unfoldable pub command_of : Segment → Command
command_of g = record {
  entry = g.entry;
  argc = suc (length g.args);
  arguments = g.entry.name ∷ words g.args;
}

end_byte : (c : ℕ) → IsEnd c → (blank c ≡ false) × ((c == b'&') ≡ false)
unfolding IsEnd
end_byte c (inl e) = (ground (arith, e), ground (arith, e))
end_byte c (inr e) = (ground (arith, e), ground (arith, e))

-- A line of commands with a pipe between them, and the newline behind the last.
unfoldable pub pipeline : Segment → List Segment → Bytes → Bytes
pipeline g [] rest = text g (b'\n' ∷ rest)
pipeline g (n ∷ gs) rest = text g (b'|' ∷ pipeline n gs rest)

length-joined : (ws : List (Bytes × Bytes)) (end : Bytes) → length end ≤ length (joined ws end)
unfolding joined
length-joined [] end = omega arith
length-joined ((w, b) ∷ ws) end = omega (
  arith,
  length-append w (b ++ joined ws end),
  length-append b (joined ws end),
  length-joined ws end,
)

length-text : (g : Segment) (end : Bytes) → length end ≤ length (text g end)
unfolding text
length-text g end =
    let inner = g.gap ++ joined g.args end in
    omega (
      arith,
      length-append g.pre (g.entry.name ++ inner),
      length-append g.entry.name inner,
      length-append g.gap (joined g.args end),
      length-joined g.args end,
    )

length-pipeline :
    (g : Segment) (gs : List Segment) (rest : Bytes) → length gs + 1 ≤ length (pipeline g gs rest)
unfolding pipeline
length-pipeline g [] rest = omega (arith, length-text g (b'\n' ∷ rest))
length-pipeline g (n ∷ gs) rest =
    omega (arith, length-text g (b'|' ∷ pipeline n gs rest), length-pipeline n gs rest)

-- With `usable size` bytes in a block of `calloc(1, size)`.
module _ (usable : ℕ → ℕ) where
  unfoldable pub IsSegment : Segment → Type 0
  IsSegment g =
      ((i : ℕ) × (get_elem? command_list i ≡ some g.entry))
      × AreBlank g.pre
      × AreBlank g.gap
      × AreArguments usable g.args
      × (length g.args < max_args - 1)
      × (has_room usable (name_size g.entry) g.entry.name ≡ true)
      × (has_room usable (length g.entry.name) g.entry.name ≡ true)

  -- What stands first in a command is no newline.
  text-newline : (g : Segment) (end : Bytes) → IsSegment g → (at (text g end) 0 == b'\n') ≡ false
  unfolding IsSegment text AreBlank Named
  text-newline g end h =
      no_newline g.pre (h.1)
        (each_at Named command_list named h.0.0 g.entry h.0.1 (g.gap ++ joined g.args end)).2
    where
      no_newline :
          (pre : Bytes)
          → AreBlank pre
          → (at (g.entry.name ++ (g.gap ++ joined g.args end)) 0 == b'\n') ≡ false
          → (at (pre ++ (g.entry.name ++ (g.gap ++ joined g.args end))) 0 == b'\n') ≡ false
      no_newline [] b n = n
      no_newline (x ∷ pre) b n = ground (arith, b.0)

  -- A round of the loop of the parser takes one command.
  parser_loop-text :
      (fuel : ℕ) (st : Status) (found : List Command) (g : Segment) (c : ℕ) (rest : Bytes)
      → IsSegment g
      → IsEnd c
      → parser_loop usable (suc fuel) st found (text g (c ∷ rest)) ≡ elim (c == b'|') [
        | true ↦ parser_loop usable fuel buffering (found ++ command_of g ∷ []) rest
        | false ↦ parser_loop usable fuel ok (found ++ command_of g ∷ []) (c ∷ rest)
      ]
  unfolding parser_loop find_shell_command IsSegment text command_of Named AreBlank
  parser_loop-text fuel st found g c rest h e =
      let tail = g.gap ++ joined g.args (c ∷ rest) in
      let (split, solid, line, hit) = each_at Named command_list named h.0.0 g.entry h.0.1 tail in
      let (d, end, at_d, hd, amp, s) = front usable g.args c rest h.3 e in
      let lead =
        skip_blank-append g.pre (g.entry.name ++ tail) (at (g.entry.name ++ tail) 0)
          (skip 1 (g.entry.name ++ tail)) h.1 split solid in
      let found_name : find_shell_command usable (g.entry.name ++ tail)
          ≡ some (some (g.entry, tail)) =
        ground (arith, hit, h.5) in
      let gap = skip_blank-append g.gap (joined g.args (c ∷ rest)) d end h.2 at_d hd in
      let arguments = find_arguments-words usable g.entry g.args c rest h.3 e h.4 h.6 in
      let (end_solid, no_amp) = end_byte c e in
      let stop = skip_blank-append [] (c ∷ rest) c rest tt refl end_solid in
      ground
        (arith, text-newline g (c ∷ rest) h, lead, line, found_name, gap, arguments, stop, no_amp)

  unfoldable pub AreSegments : Segment → List Segment → Type 0
  AreSegments g [] = IsSegment g
  AreSegments g (n ∷ gs) = IsSegment g × AreSegments n gs

  parser_loop-newline :
      (fuel : ℕ) (st : Status) (found : List Command) (rest : Bytes)
      → 0 < fuel
      → parser_loop usable fuel st found (b'\n' ∷ rest) ≡ some (st, found, foreground)
  unfolding parser_loop
  parser_loop-newline zero st found rest l = absurd (omega (arith, l))
  parser_loop-newline (suc fuel) st found rest l = refl

  parser_loop-pipeline :
      (fuel : ℕ) (st : Status) (found : List Command) (g : Segment) (gs : List Segment)
      (rest : Bytes)
      → AreSegments g gs
      → length gs + 1 < fuel
      → parser_loop usable fuel st found (pipeline g gs rest)
        ≡ some (ok, found ++ map command_of (g ∷ gs), foreground)
  unfolding pipeline AreSegments IsEnd
  parser_loop-pipeline zero st found g gs rest h l = absurd (omega (arith, l))
  parser_loop-pipeline (suc fuel) st found g [] rest h l =
      parser_loop-text fuel st found g b'\n' rest h (inl refl)
      ∙ parser_loop-newline fuel ok (found ++ command_of g ∷ []) rest (omega (arith, l))
  parser_loop-pipeline (suc fuel) st found g (n ∷ gs) rest h l =
      parser_loop-text fuel st found g b'|' (pipeline n gs rest) h.0 (inr refl)
      ∙ (parser_loop-pipeline fuel buffering (found ++ command_of g ∷ []) n gs rest h.1
            (omega (arith, l))
          ∙ ap (λ cs. some (ok, cs, foreground))
              (append_assoc found (command_of g ∷ []) (map command_of (n ∷ gs))))

  -- A line of commands with a pipe between them, each a name of the table with at most 14 words without
  -- quotation marks, and any blanks, where the copies of names and words have room for a NUL: the parser accepts it, whatever its status held before, and gives
  -- the commands in their order, for the foreground.
  pub parser-pipeline :
      (st : Status) (g : Segment) (gs : List Segment) (rest : Bytes)
      → AreSegments g gs
      → parser usable st (pipeline g gs rest) ≡ some (ok, map command_of (g ∷ gs), foreground)
  unfolding parser
  parser-pipeline st g gs rest h =
      parser_loop-pipeline (suc (length (pipeline g gs rest))) st [] g gs rest h
        (omega (arith, length-pipeline g gs rest))
