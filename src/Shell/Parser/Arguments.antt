-- ===== src/Shell/Parser/Arguments.antt =====
-- The arguments that find_arguments in myshell/interpreter.c takes from a line.
use Prim.{tt}
use system_software.Prelude.{
  ℕ, zero, suc, ◌-◌, ◌<◌, ◌≤◌, ◌≡◌, ◌≢◌, refl, sym, ap, ◌∙◌, subst, List, [], ◌∷◌, ◌++◌, true,
  false, not, none, some, ◌==◌, length, arith, map, append_assoc, append-nil, ◌⊎◌, inl, inr,
  Bool-cases,
}
use system_software.Server.Text.{Bytes}
use system_software.Server.Parser.Words.{Passes, scan_until-append}
use system_software.Shell.Parser.{
  Entry, argument, arguments_loop, find_arguments, at, blank, ends_word, max_args, has_room,
}

unfoldable pub AreBlank : Bytes → Type 0
AreBlank b = Passes (λ c. not (blank c)) b

unfoldable pub joined : List (Bytes × Bytes) → Bytes → Bytes
joined [] end = end
joined ((w, b) ∷ ws) end = w ++ (b ++ joined ws end)

unfoldable pub words : List (Bytes × Bytes) → List Bytes
words ws = map (λ p. p.0) ws

length-words : (ws : List (Bytes × Bytes)) → length (words ws) ≡ length ws
unfolding words
length-words [] = refl
length-words (w ∷ ws) = ap suc (length-words ws)

-- The end of a command: the newline, or a pipe.
unfoldable pub IsEnd : ℕ → Type 0
IsEnd c = (c ≡ b'\n') ⊎ (c ≡ b'|')

-- With `usable size` bytes in a block of `calloc(1, size)`.
module _ (usable : ℕ → ℕ) where
  -- An argument without quotation marks, whose copy has a NUL behind it.
  unfoldable pub IsArgument : Bytes → Type 0
  IsArgument [] = ⊥
  IsArgument (c ∷ w) =
      (c ≢ b'"') × Passes ends_word (c ∷ w) × (has_room usable (length (c ∷ w)) (c ∷ w) ≡ true)

  -- Arguments, each with the blanks behind it, of which only the last may have none.
  unfoldable pub AreArguments : List (Bytes × Bytes) → Type 0
  AreArguments [] = Unit
  AreArguments ((w, b) ∷ ws) = IsArgument w × AreBlank b × ((b ≢ []) ⊎ (ws ≡ [])) × AreArguments ws

  argument-append :
      (w b : Bytes) (d : ℕ) (tail : Bytes)
      → IsArgument w
      → AreBlank b
      → blank d ≡ false
      → (b ≢ []) ⊎ (ends_word d ≡ true)
      → argument usable (w ++ (b ++ d ∷ tail)) ≡ some (some (w, d ∷ tail))
  unfolding argument IsArgument AreBlank
  argument-append [] b d tail h hb hd s = absurd h
  argument-append (c ∷ w) [] d tail h hb hd (inl s) = absurd (s refl)
  argument-append (c ∷ w) [] d tail h hb hd (inr s) = ground (
    arith,
    h.0,
    h.2,
    scan_until-append ends_word (c ∷ w) d tail h.1 s,
    scan_until-append (λ x. not (blank x)) [] d tail tt (ground (arith, hd)),
  )
  argument-append (c ∷ w) (x ∷ b) d tail h hb hd s = ground (
    arith,
    h.0,
    h.2,
    scan_until-append ends_word (c ∷ w) x (b ++ d ∷ tail) h.1 (ground (arith, hb.0)),
    scan_until-append (λ x. not (blank x)) (x ∷ b) d tail hb (ground (arith, hd)),
  )

  -- What stands at the front of the joined text: no blank, and no `&`.
  pub front :
      (ws : List (Bytes × Bytes)) (c : ℕ) (rest : Bytes)
      → AreArguments ws
      → IsEnd c
      → (d : ℕ) × (tail : Bytes) × (joined ws (c ∷ rest) ≡ d ∷ tail)
        × (blank d ≡ false)
        × ((d == b'&') ≡ false)
        × (ws ≡ [] → ends_word d ≡ true)
  unfolding joined AreArguments IsArgument IsEnd
  front [] c rest h (inl e) =
      (c, rest, refl, ground (arith, e), ground (arith, e), λ q. ground (arith, e))
  front [] c rest h (inr e) =
      (c, rest, refl, ground (arith, e), ground (arith, e), λ q. ground (arith, e))
  front (([], b) ∷ ws) c rest h e = absurd h.0
  front ((x ∷ w, b) ∷ ws) c rest h e = (
    x,
    w ++ (b ++ joined ws (c ∷ rest)),
    refl,
    ground (arith, h.0.1),
    ground (arith, h.0.1),
    λ q. absurd (ground (arith, q)),
  )

  -- The end of the command ends the loop.
  argument-end : (c : ℕ) (rest : Bytes) → IsEnd c → argument usable (c ∷ rest) ≡ some none
  unfolding argument IsEnd
  argument-end c rest (inl e) = rw e (rw (scan_until-append ends_word [] b'\n' rest tt refl) refl)
  argument-end c rest (inr e) = rw e (rw (scan_until-append ends_word [] b'|' rest tt refl) refl)

  argument-joined :
      (w b : Bytes) (ws : List (Bytes × Bytes)) (c : ℕ) (rest : Bytes)
      → AreArguments ((w, b) ∷ ws)
      → IsEnd c
      → argument usable (joined ((w, b) ∷ ws) (c ∷ rest)) ≡ some (some (w, joined ws (c ∷ rest)))
  unfolding joined AreArguments
  argument-joined w b ws c rest h e =
      let (d, tail, q, hd, amp, s) = front ws c rest h.3 e in
      subst (λ t. argument usable (w ++ (b ++ t)) ≡ some (some (w, t))) (sym q)
        (argument-append w b d tail h.0 h.1 hd (elim h.2 [ inl n ↦ inl n | inr n ↦ inr (s n) ]))

  no_ampersand :
      (ws : List (Bytes × Bytes)) (c : ℕ) (rest : Bytes)
      → AreArguments ws
      → IsEnd c
      → (at (joined ws (c ∷ rest)) 0 == b'&') ≡ false
  no_ampersand ws c rest h e =
      let (d, tail, q, hd, amp, s) = front ws c rest h e in
      subst (λ t. (at t 0 == b'&') ≡ false) (sym q) amp

  -- A round of the loop with an argument in front.
  arguments_loop-cons :
      (left : ℕ) (found : List Bytes) (w b : Bytes) (ws : List (Bytes × Bytes)) (c : ℕ)
      (rest : Bytes)
      → AreArguments ((w, b) ∷ ws)
      → IsEnd c
      → arguments_loop usable (suc left) found (joined ((w, b) ∷ ws) (c ∷ rest))
        ≡ arguments_loop usable left (found ++ w ∷ []) (joined ws (c ∷ rest))
  unfolding arguments_loop
  arguments_loop-cons left found w b ws c rest h e =
      ground (arith, no_ampersand ((w, b) ∷ ws) c rest h e, argument-joined w b ws c rest h e)

  arguments_loop-words :
      (left : ℕ) (found : List Bytes) (ws : List (Bytes × Bytes)) (c : ℕ) (rest : Bytes)
      → AreArguments ws
      → IsEnd c
      → length ws < left
      → arguments_loop usable left found (joined ws (c ∷ rest))
        ≡ some (length (found ++ words ws), found ++ words ws, c ∷ rest)
  unfolding arguments_loop words joined AreArguments
  arguments_loop-words zero found ws c rest h e l = absurd (omega (arith, l))
  arguments_loop-words (suc left) found [] c rest h e l =
      ground (arith, no_ampersand [] c rest tt e, argument-end c rest e, append-nil found)
  arguments_loop-words (suc left) found ((w, b) ∷ ws) c rest h e l =
      let rec = arguments_loop-words left (found ++ w ∷ []) ws c rest h.3 e (omega (arith, l)) in
      arguments_loop-cons left found w b ws c rest h e
      ∙ subst
          (λ fs.
            arguments_loop usable left (found ++ w ∷ []) (joined ws (c ∷ rest))
            ≡ some (length fs, fs, c ∷ rest))
          (append_assoc found (w ∷ []) (words ws)) rec

  arguments_loop-none :
      (left : ℕ) (found : List Bytes) (ws : List (Bytes × Bytes)) (c : ℕ) (rest : Bytes)
      → AreArguments ws
      → IsEnd c
      → left ≤ length ws
      → arguments_loop usable left found (joined ws (c ∷ rest)) ≡ none
  unfolding arguments_loop AreArguments
  arguments_loop-none zero found ws c rest h e l = refl
  arguments_loop-none (suc left) found [] c rest h e l = absurd (omega (arith, l))
  arguments_loop-none (suc left) found ((w, b) ∷ ws) c rest h e l =
      arguments_loop-cons left found w b ws c rest h e
      ∙ arguments_loop-none left (found ++ w ∷ []) ws c rest h.3 e (omega (arith, l))

  -- Up to 14 words without quotation marks, with blanks between them, and the newline or a pipe behind:
  -- the arguments of the command are its name and these words, `argc` is their number, and the line
  -- stands at its end. The copies of the name and of each word have room for a NUL.
  pub find_arguments-words :
      (f : Entry) (ws : List (Bytes × Bytes)) (c : ℕ) (rest : Bytes)
      → AreArguments ws
      → IsEnd c
      → length ws < max_args - 1
      → has_room usable (length f.name) f.name ≡ true
      → find_arguments usable f (joined ws (c ∷ rest))
        ≡ some
            (record { entry = f; argc = suc (length ws); arguments = f.name ∷ words ws }, c ∷ rest)
  unfolding find_arguments words
  find_arguments-words f ws c rest h e l room = ground (
    arith,
    room,
    arguments_loop-words (max_args - 1) (f.name ∷ []) ws c rest h e l,
    length-words ws,
  )

  -- With 15 words or more, NULL is written behind the array.
  pub find_arguments-overflow :
      (f : Entry) (ws : List (Bytes × Bytes)) (c : ℕ) (rest : Bytes)
      → AreArguments ws
      → IsEnd c
      → max_args - 1 ≤ length ws
      → find_arguments usable f (joined ws (c ∷ rest)) ≡ none
  unfolding find_arguments
  find_arguments-overflow f ws c rest h e l =
      let over = arguments_loop-none (max_args - 1) (f.name ∷ []) ws c rest h e l in
      elim (Bool-cases (has_room usable (length f.name) f.name)) [
        | inl q ↦ ground (arith, q, over)
        | inr q ↦ ground (arith, q)
      ]
