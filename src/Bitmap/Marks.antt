-- ===== src/Bitmap/Marks.antt =====
-- fs/bitmap.c: what taking and freeing a block do to the maps.
use mathlib.Core.Path.{subst}
use linux.Common.{
  ℕ, zero, suc, ◌+◌, ◌-◌, ◌*◌, ◌/◌, ◌%◌, ◌<◌, ◌≤◌, true, false, Option, none, some, ltb, fun_ext,
  ◌≡◌, refl, sym, ap, ◌∙◌, arith, ℕ_discrete, dec_lt, Option-cases, ◌⊎◌, inl, inr,
}
use linux.Buffer.{Cache, set_head, set_content}
use linux.Bitmap.{Words, bit_at, set_bit, clear_bit, find_first_zero, SuperBlock, find_map}
use linux.Bitmap.Search.{find_first_zero_lem}
use linux.Bitmap.Blocks.{mark_block, unmark_block}
use linux.Bitmap.Bits.{set_bit_self, clear_bit-set_bit}

same_buffer : {o : Option ℕ} {a b : ℕ} → o ≡ some a → o ≡ some b → b ≡ a
same_buffer p q = ground (arith, p, q)

-- What the search for a map finds: the first zero bit of the first map that has one.
Fits : (ℕ → Option ℕ) → (ℕ → Words) → ℕ → ℕ → ℕ → ℕ → Type 0
Fits maps content first i bh j =
    (first ≤ i)
    × (maps i ≡ some bh)
    × (j < 8192)
    × (bit_at j (content bh) ≡ 0)
    × ((nr : ℕ) → nr < j → bit_at nr (content bh) ≡ 1)

-- Every bit of a map is 1.
Full : (ℕ → Option ℕ) → (ℕ → Words) → ℕ → Type 0
Full maps content k = (b nr : ℕ) → maps k ≡ some b → nr < 8192 → bit_at nr (content b) ≡ 1

Searched : (ℕ → Option ℕ) → (ℕ → Words) → ℕ → ℕ → Option (ℕ × ℕ × ℕ) → Type 0
Searched maps content n i r =
    ((r ≡ none) × ((k : ℕ) → i ≤ k → k < i + n → Full maps content k))
    ⊎ ((i' : ℕ) × (bh : ℕ) × (j : ℕ) × (r ≡ some (i', bh, j))
        × (i' < i + n)
        × Fits maps content i i' bh j
        × ((k : ℕ) → i ≤ k → k < i' → Full maps content k))

-- A full map in front.
later :
    (maps : ℕ → Option ℕ) (content : ℕ → Words) (n i : ℕ) {r r' : Option (ℕ × ℕ × ℕ)}
    → Full maps content i
    → r' ≡ r
    → Searched maps content n (suc i) r
    → Searched maps content (suc n) i r'
unfolding Searched Fits
later maps content n i full e (inl (f, all_)) = inl (
  e ∙ f,
  λ k l h. elim (ℕ_discrete i k) [
    | yes p ↦ subst (Full maps content) p full
    | no p ↦ all_ k (omega arith) (omega arith)
  ],
)
later maps content n i full e (inr (i', bh, j, f, l, fits, all_)) = inr (
  i',
  bh,
  j,
  e ∙ f,
  omega arith,
  (omega (arith, fits.0), fits.1, fits.2, fits.3, fits.4),
  λ k g h. elim (ℕ_discrete i k) [
    | yes p ↦ subst (Full maps content) p full
    | no p ↦ all_ k (omega arith) h
  ],
)

find_map_lem :
    (maps : ℕ → Option ℕ) (content : ℕ → Words) (n i : ℕ)
    → Searched maps content n i (find_map maps content n i)
unfolding find_map Fits Full Searched
find_map_lem maps content zero i = inl (refl, λ k l h. absurd (omega arith))
find_map_lem maps content (suc n) i = elim (Option-cases (maps i)) [
  | inl e ↦
      later maps content n i (λ b nr p l. absurd (ground (arith, e, p))) (rw (e, find_map) refl)
        (find_map_lem maps content n (suc i))
  | inr (bh, e) ↦ elim (find_first_zero_lem (content bh)) [
    | inl (f, ones) ↦
        later maps content n i
          (λ b nr p l. ap (λ x. bit_at nr (content x)) (same_buffer e p) ∙ ones nr l)
          (let no_room : ltb (find_first_zero (content bh)) 8192 ≡ false = ground arith in
            rw (e, find_map, no_room) refl)
          (find_map_lem maps content n (suc i))
    | inr (l, z, ones) ↦ inr (
      i,
      bh,
      find_first_zero (content bh),
      (let has_room : ltb (find_first_zero (content bh)) 8192 ≡ true = ground arith in
          rw (e, find_map, has_room) refl),
      omega arith,
      (omega arith, e, l, z, ones),
      λ k g h. absurd (omega arith),
    )
  ]
]

-- Block `z` is free by the map of the super block, in the cache.
unfoldable pub IsFree : SuperBlock → Cache → ℕ → Type 0
IsFree sb c z =
    let nr = z + 1 - sb.s_firstdatazone in
    (bh : ℕ) × (sb.s_zmap (nr / 8192) ≡ some bh) × (bit_at (nr % 8192) (c.content bh) ≡ 0)

marked : ℕ → ℕ → Cache → Cache
marked bh j c =
    set_head bh (record (c.head bh) { b_dirt = true })
      (set_content bh (set_bit j (c.content bh)).1 c)

unmarked : ℕ → ℕ → Cache → Cache
unmarked bh j c =
    set_head bh (record (c.head bh) { b_dirt = true })
      (set_content bh (clear_bit j (c.content bh)).1 c)

unmark_block-at :
    (sb : SuperBlock) (z i j bh : ℕ) (c : Cache)
    → (z + 1 - sb.s_firstdatazone) / 8192 ≡ i
    → (z + 1 - sb.s_firstdatazone) % 8192 ≡ j
    → sb.s_zmap i ≡ some bh
    → unmark_block sb z c ≡ some (unmarked bh j c)
unfolding unmark_block unmarked
unmark_block-at sb z i j bh c p q e =
    let map_ : sb.s_zmap ((z + 1 - sb.s_firstdatazone) / 8192) ≡ some bh = ap sb.s_zmap p ∙ e in
    rw (map_, unmark_block) (rw q refl)

unmarked-marked :
    (bh j : ℕ) (c : Cache)
    → bit_at j (c.content bh) ≡ 0
    → (unmarked bh j (marked bh j c)).content ≡ c.content
unfolding unmarked marked
unmarked-marked bh j c h = fun_ext (λ b. elim (ℕ_discrete b bh) [
  | yes e ↦
      let at : (unmarked bh j (marked bh j c)).content b
          ≡ (clear_bit j (set_bit j (c.content bh)).1).1 =
        ground (arith, e) in
      at ∙ clear_bit-set_bit j (c.content bh) h ∙ ap c.content (sym e)
  | no n ↦ ground (arith, n)
])

marked-taken :
    (sb : SuperBlock) (z i j bh : ℕ) (c : Cache)
    → (z + 1 - sb.s_firstdatazone) / 8192 ≡ i
    → (z + 1 - sb.s_firstdatazone) % 8192 ≡ j
    → sb.s_zmap i ≡ some bh
    → bit_at j (c.content bh) ≡ 0
    → IsFree sb (marked bh j c) z
    → ⊥
unfolding marked IsFree
marked-taken sb z i j bh c p q e h free =
    let same = same_buffer e (ap sb.s_zmap (sym p) ∙ free.1) in
    let now : bit_at j ((marked bh j c).content bh) ≡ 0 =
      ap (λ k. bit_at k ((marked bh j c).content bh)) (sym q)
      ∙ ap (λ b. bit_at ((z + 1 - sb.s_firstdatazone) % 8192) ((marked bh j c).content b))
          (sym same)
      ∙ free.2 in
    let at : (marked bh j c).content bh ≡ (set_bit j (c.content bh)).1 = ground arith in
    let one = ap (bit_at j) at ∙ set_bit_self j (c.content bh) h in omega (arith, now, one)

-- No earlier block is free.
none_before :
    (sb : SuperBlock) (c : Cache) (i bh j y : ℕ)
    → Fits sb.s_zmap c.content 0 i bh j
    → ((k : ℕ) → 0 ≤ k → k < i → Full sb.s_zmap c.content k)
    → y + 1 - sb.s_firstdatazone < j + i * 8192
    → IsFree sb c y
    → ⊥
unfolding Fits Full IsFree
none_before sb c i bh j y fits full less free =
    let nr = y + 1 - sb.s_firstdatazone in
    elim (dec_lt (nr / 8192) i) [
      | yes l ↦
          let one = full (nr / 8192) (omega arith) l free.0 (nr % 8192) free.1 (omega arith) in
          omega (arith, one, free.2)
      | no l ↦
          let at : nr / 8192 ≡ i = omega (arith, fits.2) in
          let same = same_buffer fits.1 (ap sb.s_zmap (sym at) ∙ free.1) in
          let one = fits.4 (nr % 8192) (omega (arith, fits.2)) in
          let zero_ = ap (λ b. bit_at (nr % 8192) (c.content b)) (sym same) ∙ free.2 in
          omega (arith, one, zero_)
    ]

-- mark_block takes a free block, the first in the order of the maps, which is not free afterwards;
-- unmark_block of that block gives the contents of all buffers back. It takes none only where every
-- bit of every map is 1. The first zone of the data is not zone 0.
pub unmark_block-mark_block :
    (sb : SuperBlock) (c : Cache)
    → 1 ≤ sb.s_firstdatazone
    → ((mark_block sb c ≡ none)
        × ((k b nr : ℕ) → k < 8 → sb.s_zmap k ≡ some b → nr < 8192 → bit_at nr (c.content b) ≡ 1))
      ⊎ ((z : ℕ) × (c' : Cache) × (c'' : Cache) × (mark_block sb c ≡ some (z, c'))
          × IsFree sb c z
          × (IsFree sb c' z → ⊥)
          × (sb.s_firstdatazone ≤ z + 1)
          × (unmark_block sb z c' ≡ some c'')
          × (c''.content ≡ c.content)
          × ((y : ℕ) → sb.s_firstdatazone ≤ y + 1 → y < z → IsFree sb c y → ⊥))
unfolding mark_block IsFree Searched Full Fits marked
unmark_block-mark_block sb c l = elim (find_map_lem sb.s_zmap c.content 8 0) [
  | inl (e, full) ↦
      inl (rw (e, mark_block) refl, λ k b nr h m g. full k (omega arith) (omega arith) b nr m g)
  | inr (i, bh, j, e, h, fits, full) ↦
      let z = j + i * 8192 + sb.s_firstdatazone - 1 in
      let map_nr : (z + 1 - sb.s_firstdatazone) / 8192 ≡ i = omega (arith, l, fits.2) in
      let bit_nr : (z + 1 - sb.s_firstdatazone) % 8192 ≡ j = omega (arith, l, fits.2) in
      inr (
        z,
        marked bh j c,
        unmarked bh j (marked bh j c),
        rw (e, mark_block) refl,
        (bh, ap sb.s_zmap map_nr ∙ fits.1, ap (λ k. bit_at k (c.content bh)) bit_nr ∙ fits.3),
        marked-taken sb z i j bh c map_nr bit_nr fits.1 fits.3,
        omega (arith, l),
        unmark_block-at sb z i j bh (marked bh j c) map_nr bit_nr fits.1,
        unmarked-marked bh j c fits.3,
        λ y g m. none_before sb c i bh j y fits full (omega (arith, l, g, m)),
      )
]
