-- ===== src/NextFit/Write.antt =====
-- Writing the header and the footer of a block.
use system_software.Prelude.{
  ℕ, zero, suc, ◌+◌, ◌-◌, ◌*◌, ◌^◌, ◌≡◌, ◌≢◌, ◌<◌, ◌≤◌, ◌⊎◌, inl, inr, refl, sym, ap, ◌∙◌, subst,
  List, [], ◌∷◌, ◌++◌, some, get_elem?, set, arith, get_elem?-set_ne, length-set,
}
use system_software.NextFit.{Mem, minus, header_p, footer_p, put_header, put_footer}
use system_software.NextFit.Layout.{
  Block, tag, span, width, At, Laid, Same, put_lem, footer_p-header,
}

pub Same-refl : (mem : Mem) (lo hi : ℕ) → Same mem mem lo hi
Same-refl mem lo hi = record { size = refl; outside = λ i h. refl }

-- Two changes, each within the bounds.
pub Same-trans :
    (a b c : Mem) (lo hi lo' hi' : ℕ)
    → Same a b lo hi
    → Same b c lo' hi'
    → lo ≤ lo'
    → hi' ≤ hi
    → Same a c lo hi
Same-trans a b c lo hi lo' hi' p q l r = record {
  size = q.size ∙ p.size;
  outside = λ i h.
      q.outside i (elim h [ inl u ↦ inl (omega (arith, u, l)) | inr u ↦ inr (omega (arith, u, r)) ])
      ∙ p.outside i h;
}

pub Same-wider :
    (a b : Mem) (lo hi lo' hi' : ℕ) → Same a b lo hi → lo' ≤ lo → hi ≤ hi' → Same a b lo' hi'
Same-wider a b lo hi lo' hi' p l r = record {
  size = p.size;
  outside = λ i h.
      p.outside i
        (elim h [ inl u ↦ inl (omega (arith, u, l)) | inr u ↦ inr (omega (arith, u, r)) ]);
}

pub set-Same : (mem : Mem) (i v lo hi : ℕ) → lo ≤ i → i < hi → Same mem (set mem i v) lo hi
set-Same mem i v lo hi l r = record {
  size = length-set mem i v;
  outside = λ j h.
      get_elem?-set_ne mem v
        (λ e. elim h [ inl u ↦ omega (arith, u, l, e) | inr u ↦ omega (arith, u, r, e) ]);
}

-- A word in front of one that is there is there.
pub word_below :
    (mem : Mem) (i j w : ℕ)
    → get_elem? mem j ≡ some w
    → i ≤ j
    → (x : ℕ) × (get_elem? mem i ≡ some x)
word_below [] i j w h l = absurd (ground (arith, h))
word_below (y ∷ mem) zero j w h l = (y, refl)
word_below (y ∷ mem) (suc i) zero w h l = absurd (omega (arith, l))
word_below (y ∷ mem) (suc i) (suc j) w h l = word_below mem i j w h (omega (arith, l))

pub get_elem?-set :
    (mem : Mem) (i v w : ℕ) → get_elem? mem i ≡ some w → get_elem? (set mem i v) i ≡ some v
get_elem?-set [] i v w h = absurd (ground (arith, h))
get_elem?-set (x ∷ mem) zero v w h = refl
get_elem?-set (x ∷ mem) (suc i) v w h = get_elem?-set mem i v w h

-- Header and footer are written, in this order; the footer is found by the new header.
pub put_tags :
    (mem : Mem) (h v w : ℕ) (b : Block)
    → v ≡ tag b
    → 1 ≤ b.units
    → 8 * b.units < 2 ^ 31
    → get_elem? mem (h + span b - 1) ≡ some w
    → (m m' : Mem) × (put_header mem (h + 1) v ≡ some m)
      × (put_footer m (h + 1) v ≡ some m')
      × At m' h b
      × Same mem m' h (h + span b)
unfolding put_header put_footer header_p minus
put_tags mem h v w b e pos small last =
    let f = h + span b - 1 in
    let (x, at_h) = word_below mem h f w last (omega (arith, pos)) in
    let m = set mem h v in
    let m' = set m f v in
    let apart : h ≢ f = λ q. omega (arith, q, pos) in
    let in_m : get_elem? m f ≡ some w = get_elem?-set_ne mem v apart ∙ last in
    let head : get_elem? m h ≡ some (tag b) = get_elem?-set mem h v x at_h ∙ ap some e in
    let place : footer_p m (h + 1) ≡ some f = footer_p-header m h b pos head in
    let up : h + 1 - 1 ≡ h = omega arith in
    (
      m,
      m',
      ground (arith, put_lem mem h v x at_h),
      ground (arith, place, put_lem m f v w in_m),
      record {
        pos = pos;
        small = small;
        header = get_elem?-set_ne m v (λ q. apart (sym q)) ∙ head;
        footer = get_elem?-set m f v w in_m ∙ ap some e;
      },
      Same-trans mem m m' h (h + span b) h (h + span b)
          (set-Same mem h v h (h + span b) (omega arith) (omega (arith, pos)))
          (set-Same m f v h (h + span b) (omega (arith, pos)) (omega (arith, pos))) (omega arith)
          (omega arith),
    )

-- Blocks apart from a change are as before.
pub At-Same :
    (mem mem' : Mem) (lo hi h : ℕ) (b : Block)
    → Same mem mem' lo hi
    → (h + span b ≤ lo) ⊎ (hi ≤ h)
    → At mem h b
    → At mem' h b
At-Same mem mem' lo hi h b p d v = record {
  pos = v.pos;
  small = v.small;
  header =
      p.outside h (elim d [ inl u ↦ inl (omega (arith, u, v.pos)) | inr u ↦ inr u ]) ∙ v.header;
  footer =
      p.outside (h + span b - 1)
        (elim d [ inl u ↦ inl (omega (arith, u, v.pos)) | inr u ↦ inr (omega (arith, u, v.pos)) ])
      ∙ v.footer;
}

pub Laid-Same :
    (mem mem' : Mem) (lo hi h : ℕ) (bs : List Block)
    → Same mem mem' lo hi
    → (h + width bs ≤ lo) ⊎ (hi ≤ h)
    → Laid mem h bs
    → Laid mem' h bs
Laid-Same mem mem' lo hi h [] p d v = tt
Laid-Same mem mem' lo hi h (b ∷ bs) p d (at_b, v) = (
  At-Same mem mem' lo hi h b p (elim d [ inl u ↦ inl (omega (arith, u)) | inr u ↦ inr u ]) at_b,
  Laid-Same mem mem' lo hi (h + span b) bs p
      (elim d [ inl u ↦ inl (omega (arith, u)) | inr u ↦ inr (omega (arith, u)) ]) v,
)

pub width-append : (l r : List Block) → width (l ++ r) ≡ width l + width r
width-append [] r = omega arith
width-append (b ∷ l) r = omega (arith, width-append l r)

pub Laid-append :
    (mem : Mem) (h : ℕ) (l r : List Block)
    → Laid mem h l
    → Laid mem (h + width l) r
    → Laid mem h (l ++ r)
Laid-append mem h [] r v w = subst (λ k. Laid mem k r) (omega arith) w
Laid-append mem h (b ∷ l) r (at_b, v) w =
    let e : h + (span b + width l) ≡ h + span b + width l = omega arith in
    (at_b, Laid-append mem (h + span b) l r v (subst (λ k. Laid mem k r) e w))

pub Laid-split :
    (mem : Mem) (h : ℕ) (l r : List Block)
    → Laid mem h (l ++ r)
    → Laid mem h l × Laid mem (h + width l) r
Laid-split mem h [] r v = (tt, subst (λ k. Laid mem k r) (omega arith) v)
Laid-split mem h (b ∷ l) r (at_b, v) =
    let e : h + span b + width l ≡ h + (span b + width l) = omega arith in
    let (vl, vr) = Laid-split mem (h + span b) l r v in ((at_b, vl), subst (λ k. Laid mem k r) e vr)
