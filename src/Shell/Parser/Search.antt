-- ===== src/Shell/Parser/Search.antt =====
-- The binary search of find_shell_command in myshell/interpreter.c.
use Prim.{tt}
use system_software.Prelude.{
  ℕ, zero, suc, ◌+◌, ◌-◌, ◌/◌, ◌<◌, ◌≤◌, ◌≡◌, refl, sym, subst, List, [], ◌∷◌, ◌++◌, true, Option,
  none, some, get_elem?, get_elem?-some, ltb, ◌==◌, arith, Bool-cases, Option-cases, ℕ_discrete,
  inl, inr, ltb→lt,
}
use system_software.Server.Text.{Bytes}
use system_software.Shell.Parser.{Entry, command_list, num_command, starts, search, at, char_order}

-- What holds of each entry of a list.
unfoldable pub Each : (Entry → Type 0) → List Entry → Type 0
Each P [] = Unit
Each P (e ∷ es) = P e × Each P es

pub each_at :
    (P : Entry → Type 0) (es : List Entry)
    → Each P es
    → (i : ℕ) (e : Entry) → get_elem? es i ≡ some e
    → P e
unfolding Each
each_at P [] p i e h = absurd (ground (arith, h))
each_at P (x ∷ es) (p, ps) zero e h = subst P (ground (arith, h)) p
each_at P (x ∷ es) (p, ps) (suc i) e h = each_at P es ps i e h

-- The search for a line that starts with a name of the table finds the entry.
Hit : Entry → Type 0
Hit e =
    (rest : Bytes)
    → search (suc (num_command + 1)) 0 (num_command + 1) (e.name ++ rest) ≡ some (some e)

hits : Each Hit command_list
unfolding Each Hit search starts
hits = (
  λ rest. refl,
  (
    λ rest. refl,
    (
      λ rest. refl,
      (
        λ rest. refl,
        (
          λ rest. refl,
          (
            λ rest. refl,
            (
              λ rest. refl,
              (
                λ rest. refl,
                (
                  λ rest. refl,
                  (
                    λ rest. refl,
                    (
                      λ rest. refl,
                      (
                        λ rest. refl,
                        (
                          λ rest. refl,
                          (
                            λ rest. refl,
                            (
                              λ rest. refl,
                              (
                                λ rest. refl,
                                (
                                  λ rest. refl,
                                  (
                                    λ rest. refl,
                                    (
                                      λ rest. refl,
                                      (
                                        λ rest. refl,
                                        (
                                          λ rest. refl,
                                          (
                                            λ rest. refl,
                                            (
                                              λ rest. refl,
                                              (
                                                λ rest. refl,
                                                (
                                                  λ rest. refl,
                                                  (
                                                    λ rest. refl,
                                                    (
                                                      λ rest. refl,
                                                      (
                                                        λ rest. refl,
                                                        (λ rest. refl, (λ rest. refl, tt)),
                                                      ),
                                                    ),
                                                  ),
                                                ),
                                              ),
                                            ),
                                          ),
                                        ),
                                      ),
                                    ),
                                  ),
                                ),
                              ),
                            ),
                          ),
                        ),
                      ),
                    ),
                  ),
                ),
              ),
            ),
          ),
        ),
      ),
    ),
  ),
)

-- A line that starts with a name is the name and what follows.
starts-split :
    (line name : Bytes) → starts line name ≡ true → (rest : Bytes) × (line ≡ name ++ rest)
unfolding starts
starts-split line [] h = (line, refl)
starts-split [] (c ∷ name) h = absurd (ground (arith, h))
starts-split (d ∷ line) (c ∷ name) h = elim (ℕ_discrete d c) [
  | yes e ↦ let t = starts-split line name (ground (arith, h, e)) in (t.0, rw (e, t.1))
  | no n ↦ absurd (ground (arith, h, n))
]

-- The answer of a search: an entry of the table with whose name the line starts.
unfoldable pub Found : Bytes → Option Entry → Type 0
Found line none = Unit
Found line (some e) = (i : ℕ) × (get_elem? command_list i ≡ some e) × (starts line e.name ≡ true)

-- With fuel for the places between the bounds the search ends, and what it finds is right.
search-Found :
    (fuel low bound : ℕ) (line : Bytes)
    → bound - low < fuel
    → bound ≤ num_command + 1
    → (r : Option Entry) × (search fuel low bound line ≡ some r) × Found line r
unfolding search Found
search-Found zero low bound line h b = absurd (omega (arith, h))
search-Found (suc fuel) low bound line h b = elim (Bool-cases (ltb low bound)) [
  | inr e0 ↦ (none, ground (arith, e0), tt)
  | inl e0 ↦
      let mid = (low + (bound - 1)) / 2 in
      let lt = ltb→lt low bound e0 in
      elim (Option-cases (get_elem? command_list mid)) [
        | inl e1 ↦ absurd (get_elem?-some command_list mid (omega (arith, b, lt)) e1)
        | inr (e, e1) ↦ elim (Bool-cases (at line 0 == at e.name 0)) [
          | inr e2 ↦ elim (Bool-cases (ltb (char_order (at e.name 0)) (char_order (at line 0)))) [
            | inl e3 ↦
                let (r, p, f) = search-Found fuel (mid + 1) bound line (omega (arith, h, lt)) b in
                (r, ground (arith, e0, e1, e2, e3, p), f)
            | inr e3 ↦
                let (r, p, f) =
                  search-Found fuel low mid line (omega (arith, h, lt)) (omega (arith, lt, b)) in
                (r, ground (arith, e0, e1, e2, e3, p), f)
          ]
          | inl e2 ↦ elim (Bool-cases (starts line e.name)) [
            | inl e3 ↦ (some e, ground (arith, e0, e1, e2, e3), (mid, e1, e3))
            | inr e3 ↦ elim (Bool-cases (ltb (char_order (at e.name 1)) (char_order (at line 1)))) [
              | inl e4 ↦
                  let (r, p, f) = search-Found fuel (mid + 1) bound line (omega (arith, h, lt)) b in
                  (r, ground (arith, e0, e1, e2, e3, e4, p), f)
              | inr e4 ↦
                  let (r, p, f) =
                    search-Found fuel low mid line (omega (arith, h, lt)) (omega (arith, lt, b)) in
                  (r, ground (arith, e0, e1, e2, e3, e4, p), f)
            ]
          ]
        ]
      ]
]

-- The search ends on every line. If a name of the table is a prefix of the line, it finds the entry
-- with that name, and otherwise nothing.
pub search_lem :
    (line : Bytes)
    → (r : Option Entry) × (search (suc (num_command + 1)) 0 (num_command + 1) line ≡ some r)
      × Found line r
      × ((i : ℕ) (e : Entry)
          → get_elem? command_list i ≡ some e
          → starts line e.name ≡ true
          → r ≡ some e)
unfolding Hit
search_lem line =
    let (r, p, f) =
      search-Found (suc (num_command + 1)) 0 (num_command + 1) line (omega arith) (omega arith) in
    (
      r,
      p,
      f,
      λ i e at_i st.
          let (rest, q) = starts-split line e.name st in
          let hit = each_at Hit command_list hits i e at_i rest in
          ground (
            arith,
            p,
            subst (λ l. search (suc (num_command + 1)) 0 (num_command + 1) l ≡ some (some e))
                (sym q) hit,
          ),
    )
