-- ===== src/Server/Parser/Words.antt =====
-- The scanning loops and the choice of a command.
use system_software.Prelude.{
  ℕ, [], ◌∷◌, ◌++◌, Bool, true, false, none, some, ◌==◌, if◌then◌else◌, ◌≡◌, ◌↔◌, refl, arith,
}
use system_software.Server.Text.{Bytes}
use system_software.Server.Parser.{
  command_list, scan_until, strncmp_eq, pick, show, sell, buy, exit_client, codes, no_args, int_int,
}

-- No byte of the text stops the loop.
abbrev pub Passes : (ℕ → Bool) → Bytes → Type 0
Passes stop [] = Unit {0}
Passes stop (c ∷ cs) = (stop c ≡ false) × Passes stop cs

pub scan_until-append :
    (stop : ℕ → Bool) (w : Bytes) (c : ℕ) (rest : Bytes)
    → Passes stop w
    → stop c ≡ true
    → scan_until stop (w ++ c ∷ rest) ≡ some (w, c ∷ rest)
unfolding scan_until
scan_until-append stop [] c rest h e = rw e refl
scan_until-append stop (x ∷ w) c rest h e = rw (h.0, scan_until-append stop w c rest h.1 e) refl

-- A loop that no byte of the buffer stops reads past its end.
pub scan_until-none : (stop : ℕ → Bool) (s : Bytes) → Passes stop s → scan_until stop s ≡ none
unfolding scan_until
scan_until-none stop [] h = refl
scan_until-none stop (x ∷ s) h = rw (h.0, scan_until-none stop s h.1) refl

-- No byte is NUL.
abbrev pub IsText : Bytes → Type 0
IsText = Passes (λ c. c == 0)

-- `strncmp` with the length of a text finds equal the names that it is a prefix of.
pub strncmp_eq_iff :
    (name w : Bytes) → IsText w → (strncmp_eq name w ≡ true) ↔ ((rest : Bytes) × (name ≡ w ++ rest))
unfolding strncmp_eq
strncmp_eq_iff name [] h = (λ e. (name, refl), λ p. refl)
strncmp_eq_iff [] (c ∷ w) h = (λ e. cc, λ p. cc)
strncmp_eq_iff (a ∷ name) (c ∷ w) h =
    let same = strncmp_eq_iff name w h.1 in
    (
      λ e. let (rest, q) = same.0 (ground arith) in (rest, ground (arith, q)),
      λ p.
          let tail : name ≡ w ++ p.0 = ground (arith, p.1) in
          ground (arith, same.1 (p.0, tail), p.1),
    )

-- The command that a word without NUL selects, for the four names of the table. Every prefix
-- counts, and the later entry wins.
pub pick-command_list :
    (w : Bytes)
    → pick command_list w none ≡ (
        if strncmp_eq (codes "exit") w
        then some (record { flag = no_args; name = codes "exit"; fp = exit_client })
        else if strncmp_eq (codes "buy") w
        then some (record { flag = int_int; name = codes "buy"; fp = buy })
        else if strncmp_eq (codes "sell") w
        then some (record { flag = int_int; name = codes "sell"; fp = sell })
        else if strncmp_eq (codes "show") w
        then some (record { flag = no_args; name = codes "show"; fp = show })
        else none)
unfolding pick
pick-command_list w = refl
