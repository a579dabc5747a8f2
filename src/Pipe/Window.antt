-- ===== src/Pipe/Window.antt =====
-- Stretches of a ring's page, and what bytes written into the page do to them.
use linux.Common.{
  ℕ, zero, suc, ◌+◌, ◌-◌, ◌%◌, ◌≤◌, ◌<◌, ◌≡◌, refl, ap, sym, dec_lt, ◌∙◌, List, [], ◌∷◌, ◌++◌,
  arith, length, get_or, set, take, drop, length-set, length-append, length-take, length-drop,
  get_or-set_self, get_or-set_ne, get_or-append_left, get_or-append_right, get_or-take, get_or-drop,
  eq_of_get_or,
}
use linux.Pipe.{write_bytes}

-- The `n` bytes from offset `start` on, going round at the page's end.
abbrev pub window : List ℕ → ℕ → ℕ → List ℕ
window page start zero = []
window page start (suc n) = get_or page start 0 ∷ window page ((start + 1) % 4096) n

pub length-window : (page : List ℕ) (start n : ℕ) → length (window page start n) ≡ n
length-window page start zero = refl
length-window page start (suc n) = ap suc (length-window page ((start + 1) % 4096) n)

pub get_or-window :
    (page : List ℕ) (start n j : ℕ)
    → start < 4096
    → j < n
    → get_or (window page start n) j 0 ≡ get_or page ((start + j) % 4096) 0
get_or-window page start zero j s h = absurd (omega arith)
get_or-window page start (suc n) zero s h = ap (λ k. get_or page k 0) (omega arith)
get_or-window page start (suc n) (suc j) s h =
    get_or-window page ((start + 1) % 4096) n j (omega arith) (omega arith)
    ∙ ap (λ k. get_or page k 0) (omega arith)

pub length-write_bytes :
    (page : List ℕ) (i : ℕ) (bs : List ℕ) → length (write_bytes page i bs) ≡ length page
unfolding write_bytes
length-write_bytes page i [] = refl
length-write_bytes page i (b ∷ bs) =
    omega (arith, length-write_bytes (set page i b) (i + 1) bs, length-set page i b)

pub get_or-write_bytes_below :
    (page : List ℕ) (i : ℕ) (bs : List ℕ) (j : ℕ)
    → j < i
    → get_or (write_bytes page i bs) j 0 ≡ get_or page j 0
unfolding write_bytes
get_or-write_bytes_below page i [] j h = refl
get_or-write_bytes_below page i (b ∷ bs) j h =
    get_or-write_bytes_below (set page i b) (i + 1) bs j (omega arith)
    ∙ get_or-set_ne page i j b 0 (omega arith)

pub get_or-write_bytes_above :
    (page : List ℕ) (i : ℕ) (bs : List ℕ) (j : ℕ)
    → i + length bs ≤ j
    → get_or (write_bytes page i bs) j 0 ≡ get_or page j 0
unfolding write_bytes
get_or-write_bytes_above page i [] j h = refl
get_or-write_bytes_above page i (b ∷ bs) j h =
    get_or-write_bytes_above (set page i b) (i + 1) bs j (omega arith)
    ∙ get_or-set_ne page i j b 0 (omega arith)

pub get_or-write_bytes_at :
    (page : List ℕ) (i : ℕ) (bs : List ℕ) (j : ℕ)
    → j < length bs
    → i + length bs ≤ length page
    → get_or (write_bytes page i bs) (i + j) 0 ≡ get_or bs j 0
unfolding write_bytes
get_or-write_bytes_at page i [] j h k = absurd (omega arith)
get_or-write_bytes_at page i (b ∷ bs) zero h k =
    let e : i + 0 ≡ i = omega arith in
    rw e (
      get_or-write_bytes_below (set page i b) (i + 1) bs i (omega arith)
      ∙ get_or-set_self page i b 0 (omega arith))
get_or-write_bytes_at page i (b ∷ bs) (suc j) h k =
    let e : i + suc j ≡ i + 1 + j = omega arith in
    rw e (
      get_or-write_bytes_at (set page i b) (i + 1) bs j (omega arith)
        (omega (arith, length-set page i b)))

-- A window begins with a copy that does not reach round the page's end.
pub window-split :
    (page : List ℕ) (start c n : ℕ)
    → length page ≡ 4096
    → start < 4096
    → start + c ≤ 4096
    → window page start (c + n) ≡ take c (drop start page) ++ window page ((start + c) % 4096) n
window-split page start c n whole s fits =
    eq_of_get_or (window page start (c + n)) (front ++ back) 0
      (omega (
        arith,
        length-window page start (c + n),
        length-append front back,
        front_length,
        length-window page ((start + c) % 4096) n,
      ))
      (λ j l. elim (dec_lt j c) [
        | yes below ↦
            get_or-window page start (c + n) j s (omega arith)
            ∙ sym (
                get_or-append_left front back j 0 (omega (arith, front_length))
                ∙ get_or-take c (drop start page) j 0 below
                ∙ get_or-drop start page j 0
                ∙ ap (λ k. get_or page k 0) (omega arith))
        | no above ↦
            get_or-window page start (c + n) j s (omega (arith, length-window page start (c + n)))
            ∙ sym (
                get_or-append_right front back j 0 (omega (arith, front_length))
                ∙ ap (λ k. get_or back (j - k) 0) front_length
                ∙ get_or-window page ((start + c) % 4096) n (j - c) (omega arith)
                    (omega (arith, length-window page start (c + n)))
                ∙ ap (λ k. get_or page k 0) (omega arith))
      ])
  where
    front : List ℕ
    front = take c (drop start page)

    back : List ℕ
    back = window page ((start + c) % 4096) n

    front_length : length (take c (drop start page)) ≡ c
    front_length = omega (arith, length-take c (drop start page), length-drop start page)

-- Bytes written just behind a window extend it.
pub window-write_bytes :
    (page : List ℕ) (start n h : ℕ) (bs : List ℕ)
    → h ≡ (start + n) % 4096
    → length page ≡ 4096
    → start < 4096
    → h + length bs ≤ 4096
    → n + length bs < 4096
    → window (write_bytes page h bs) start (n + length bs) ≡ window page start n ++ bs
window-write_bytes page start n h bs at whole s fits few =
    eq_of_get_or (window new start (n + length bs)) (window page start n ++ bs) 0
      (omega (
        arith,
        length-window new start (n + length bs),
        length-append (window page start n) bs,
        length-window page start n,
      ))
      (λ j l. elim (dec_lt j n) [
        | yes below ↦
            get_or-window new start (n + length bs) j s (omega arith)
            ∙ old j below
            ∙ sym (
                get_or-append_left (window page start n) bs j 0
                  (omega (arith, length-window page start n))
                ∙ get_or-window page start n j s below)
        | no above ↦
            get_or-window new start (n + length bs) j s
              (omega (arith, length-window new start (n + length bs)))
            ∙ ap (λ k. get_or new k 0) (omega (arith, length-window new start (n + length bs)))
            ∙ get_or-write_bytes_at page h bs (j - n)
                (omega (arith, length-window new start (n + length bs))) (omega arith)
            ∙ sym (
                get_or-append_right (window page start n) bs j 0
                  (omega (arith, length-window page start n))
                ∙ ap (λ k. get_or bs (j - k) 0) (length-window page start n))
      ])
  where
    new : List ℕ
    new = write_bytes page h bs

    old : (j : ℕ) → j < n → get_or new ((start + j) % 4096) 0 ≡ get_or page ((start + j) % 4096) 0
    old j below = elim (dec_lt ((start + j) % 4096) h) [
      | yes l ↦ get_or-write_bytes_below page h bs ((start + j) % 4096) l
      | no g ↦ get_or-write_bytes_above page h bs ((start + j) % 4096) (omega arith)
    ]
