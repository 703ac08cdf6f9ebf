-- ===== src/NextFit/Coalesce.antt =====
-- `coalesce` on the list of blocks.
use Prim.{tt}
use system_software.Prelude.{
  ℕ, ◌+◌, ◌*◌, ◌^◌, ◌≡◌, ◌<◌, ◌≤◌, inl, inr, refl, sym, ap, ◌∙◌, subst, List, [], ◌∷◌, Bool, true,
  false, some, get_elem?, arith, if◌then◌else◌,
}
use system_software.NextFit.{Mem, get, is_it_alloc, merge}
use system_software.NextFit.Layout.{Block, free_block, span, width, At, Laid, Same, alloc-At}
use system_software.NextFit.Write.{Same-refl, Same-wider, Laid-Same, At-Same}
use system_software.NextFit.Merge.{merge-none, merge-next, merge-prev, merge-both}

-- A block with the free blocks in front of the rest.
abbrev pub join_when : Bool → Block → Block → List Block → List Block
join_when true b n r = b ∷ n ∷ r
join_when false b n r = free_block (b.units + n.units) ∷ r

abbrev pub join : Block → List Block → List Block
join b [] = b ∷ []
join b (n ∷ r) = join_when n.used b n r

-- The blocks after a free block `b` between `p` and `r` is merged with its free neighbours.
abbrev pub merged_when : Bool → Block → Block → List Block → List Block
merged_when true p b r = p ∷ join b r
merged_when false p b r = join (free_block (b.units + p.units)) r

abbrev pub merged : Block → Block → List Block → List Block
merged p b r = merged_when p.used p b r

-- Behind the last block stands a header of size 0, in use.
abbrev pub Closed : Mem → ℕ → List Block → Type 0
Closed mem h bs = Laid mem h bs × (get_elem? mem (h + width bs) ≡ some 1)

-- Where the merged block starts.
abbrev pub merged_at : ℕ → Block → ℕ
merged_at hp p = if p.used then hp + span p else hp

pub epilogue-alloc : (mem : Mem) (i : ℕ) → get_elem? mem i ≡ some 1 → is_it_alloc mem i ≡ some true
unfolding is_it_alloc get
epilogue-alloc mem i h = ground (arith, h)

-- What `merge` does, in the cases of the block in front being in use, or free.
abbrev Merges : Mem → ℕ → Block → Block → List Block → Bool → Type 0
Merges mem hp p b r used =
    (m : Mem) × (merge mem (hp + span p + 1) ≡ some (m, (if used then hp + span p else hp) + 1))
    × Closed m hp (merged_when used p b r)
    × Same mem m hp (hp + width (p ∷ b ∷ r))

merge-last :
    (mem : Mem) (hp : ℕ) (p b : Block) (used : Bool)
    → Closed mem hp (p ∷ b ∷ [])
    → 8 * (p.units + b.units) < 2 ^ 31
    → p.used ≡ used
    → Merges mem hp p b [] used
merge-last mem hp p b true ((at_p, (at_b, v)), last) small u =
    let hn = hp + span p + span b in
    let e : hp + width (p ∷ b ∷ []) ≡ hn = omega arith in
    let end = epilogue-alloc mem hn (subst (λ i. get_elem? mem i ≡ some 1) e last) in
    (
      mem,
      merge-none mem hp p b at_p at_b u end,
      ((at_p, (at_b, v)), last),
      Same-refl mem hp (hp + width (p ∷ b ∷ [])),
    )
merge-last mem hp p b false ((at_p, (at_b, v)), last) small u =
    let hn = hp + span p + span b in
    let e : hp + width (p ∷ b ∷ []) ≡ hn = omega arith in
    let end = epilogue-alloc mem hn (subst (λ i. get_elem? mem i ≡ some 1) e last) in
    let (m, ran, at_m, same) = merge-prev mem hp p b at_p at_b u end (omega (arith, small)) in
    let whole = free_block (b.units + p.units) in
    let q : hp + width (whole ∷ []) ≡ hp + width (p ∷ b ∷ []) = omega arith in
    (
      m,
      ran,
      (
        (at_m, tt),
        subst (λ i. get_elem? m i ≡ some 1) (sym q)
            (same.outside (hp + width (p ∷ b ∷ [])) (inr (omega arith)) ∙ last),
      ),
      subst (λ k. Same mem m hp k) (sym e) same,
    )

-- The blocks `r` and the end of the heap behind a change are as before.
pub rest-Same :
    (mem m : Mem) (lo hi h : ℕ) (r : List Block)
    → Same mem m lo hi
    → hi ≤ h
    → Closed mem h r
    → Closed m h r
rest-Same mem m lo hi h r same le (v, last) = (
  Laid-Same mem m lo hi h r same (inr le) v,
  same.outside (h + width r) (inr (omega (arith, le))) ∙ last,
)

-- A block in front of a closed list.
pub Closed-cons :
    (mem : Mem) (h k : ℕ) (b : Block) (r : List Block)
    → h + span b ≡ k
    → At mem h b
    → Closed mem k r
    → Closed mem h (b ∷ r)
Closed-cons mem h k b r e at_b (v, last) =
    let q : k + width r ≡ h + width (b ∷ r) = omega (arith, e) in
    ((at_b, subst (λ i. Laid mem i r) (sym e) v), subst (λ i. get_elem? mem i ≡ some 1) q last)

pub Closed-tail :
    (mem : Mem) (h : ℕ) (b : Block) (r : List Block)
    → Closed mem h (b ∷ r)
    → Closed mem (h + span b) r
Closed-tail mem h b r ((at_b, v), last) =
    let q : h + width (b ∷ r) ≡ h + span b + width r = omega arith in
    (v, subst (λ i. get_elem? mem i ≡ some 1) q last)

merge-inner :
    (mem : Mem) (hp : ℕ) (p b n : Block) (r : List Block) (used nused : Bool)
    → Closed mem hp (p ∷ b ∷ n ∷ r)
    → 8 * (p.units + (b.units + n.units)) < 2 ^ 31
    → p.used ≡ used
    → n.used ≡ nused
    → Merges mem hp p b (n ∷ r) used
merge-inner mem hp p b n r true true v small u nu =
    let (at_p, (at_b, (at_n, w))) = v.0 in
    let hn = hp + span p + span b in
    (
      mem,
      merge-none mem hp p b at_p at_b u (alloc-At mem hn n at_n ∙ ap some nu),
      subst (λ k. Closed mem hp (p ∷ join_when k b n r)) (sym nu) v,
      Same-refl mem hp (hp + width (p ∷ b ∷ n ∷ r)),
    )
merge-inner mem hp p b n r true false v small u nu =
    let (at_p, (at_b, (at_n, w))) = v.0 in
    let hb = hp + span p in
    let hr = hb + span b + span n in
    let rest =
      Closed-tail mem (hb + span b) n r
        (Closed-tail mem hb b (n ∷ r) (Closed-tail mem hp p (b ∷ n ∷ r) v)) in
    let (m, ran, at_m, same) = merge-next mem hp p b at_p at_b n at_n u nu (omega (arith, small)) in
    let whole = free_block (b.units + n.units) in
    let tail =
      Closed-cons m hb hr whole r (omega arith) at_m
        (rest-Same mem m hb hr hr r same (omega arith) rest) in
    let at_p' = At-Same mem m hb hr hp p same (inl (omega arith)) at_p in
    (
      m,
      ran,
      subst (λ k. Closed m hp (p ∷ join_when k b n r)) (sym nu)
          (Closed-cons m hp hb p (whole ∷ r) refl at_p' tail),
      Same-wider mem m hb hr hp (hp + width (p ∷ b ∷ n ∷ r)) same (omega arith) (omega arith),
    )
merge-inner mem hp p b n r false true v small u nu =
    let (at_p, (at_b, (at_n, w))) = v.0 in
    let hb = hp + span p in
    let hn = hb + span b in
    let rest = Closed-tail mem hb b (n ∷ r) (Closed-tail mem hp p (b ∷ n ∷ r) v) in
    let (m, ran, at_m, same) =
      merge-prev mem hp p b at_p at_b u (alloc-At mem hn n at_n ∙ ap some nu)
        (omega (arith, small)) in
    let whole = free_block (b.units + p.units) in
    (
      m,
      ran,
      subst (λ k. Closed m hp (join_when k whole n r)) (sym nu)
          (Closed-cons m hp hn whole (n ∷ r) (omega arith) at_m
            (rest-Same mem m hp hn hn (n ∷ r) same (omega arith) rest)),
      Same-wider mem m hp hn hp (hp + width (p ∷ b ∷ n ∷ r)) same (omega arith) (omega arith),
    )
merge-inner mem hp p b n r false false v small u nu =
    let (at_p, (at_b, (at_n, w))) = v.0 in
    let hb = hp + span p in
    let hr = hb + span b + span n in
    let rest =
      Closed-tail mem (hb + span b) n r
        (Closed-tail mem hb b (n ∷ r) (Closed-tail mem hp p (b ∷ n ∷ r) v)) in
    let (m, ran, at_m, same) = merge-both mem hp p b at_p at_b n at_n u nu (omega (arith, small)) in
    let e : b.units + (n.units + p.units) ≡ b.units + p.units + n.units = omega arith in
    let at_m' = subst (λ k. At m hp (free_block k)) e at_m in
    let whole = free_block (b.units + p.units + n.units) in
    (
      m,
      ran,
      subst (λ k. Closed m hp (join_when k (free_block (b.units + p.units)) n r)) (sym nu)
          (Closed-cons m hp hr whole r (omega arith) at_m'
            (rest-Same mem m hp hr hr r same (omega arith) rest)),
      Same-wider mem m hp hr hp (hp + width (p ∷ b ∷ n ∷ r)) same (omega arith) (omega arith),
    )

-- `coalesce` on a block with the blocks `p` in front of it and `r` behind it.
pub merge_lem :
    (mem : Mem) (hp : ℕ) (p b : Block) (r : List Block)
    → Closed mem hp (p ∷ b ∷ r)
    → 4 * width (p ∷ b ∷ r) < 2 ^ 31
    → (m : Mem) × (merge mem (hp + span p + 1) ≡ some (m, merged_at hp p + 1))
      × Closed m hp (merged p b r)
      × Same mem m hp (hp + width (p ∷ b ∷ r))
merge_lem mem hp p b [] v small = merge-last mem hp p b p.used v (omega (arith, small)) refl
merge_lem mem hp p b (n ∷ r) v small =
    merge-inner mem hp p b n r p.used n.used v (omega (arith, small)) refl refl

pub width-join : (b : Block) (r : List Block) → width (join b r) ≡ width (b ∷ r)
width-join b [] = refl
width-join b (n ∷ r) = joined n.used
  where
    joined : (u : Bool) → width (join_when u b n r) ≡ width (b ∷ n ∷ r)
    joined true = refl
    joined false = omega arith

pub width-merged : (p b : Block) (r : List Block) → width (merged p b r) ≡ width (p ∷ b ∷ r)
width-merged p b r = cases p.used
  where
    cases : (u : Bool) → width (merged_when u p b r) ≡ width (p ∷ b ∷ r)
    cases true = omega (arith, width-join b r)
    cases false = omega (arith, width-join (free_block (b.units + p.units)) r)
