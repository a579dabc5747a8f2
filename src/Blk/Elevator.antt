-- ===== src/Blk/Elevator.antt =====
-- Where `add_request` puts a request.
use linux.Common.{
  ℕ, ◌+◌, ◌≤◌, List, [], ◌∷◌, ◌++◌, Bool, true, false, ◌&&◌, ◌||◌, not, ◌↔◌, if◌then◌else◌, arith,
  ◌≡◌, refl, ap, Bool-cases, inl, inr,
}
use linux.Blk.{Request, in_order, has_buffer, stops, walk, add_request}

-- The places of the queue where the order starts anew: the sweeps it takes, but the first.
unfoldable pub turns : Request → List Request → ℕ
turns tmp [] = 0
turns tmp (next ∷ rest) = (if in_order tmp next then 0 else 1) + turns next rest

-- `x` comes before or after `req`: they are not for the same place with the same command.
abbrev pub apart : Request → Request → Bool
apart req x = in_order x req || in_order req x

abbrev pub all : (Request → Bool) → List Request → Bool
all f [] = true
all f (x ∷ xs) = f x && all f xs

-- The swapping requests a queue starts with, and what follows them.
unfoldable pub swaps : List Request → List Request
unfolding has_buffer
swaps [] = []
swaps (r ∷ rest) = if has_buffer r then [] else r ∷ swaps rest

unfoldable pub behind_swaps : List Request → List Request
unfolding has_buffer
behind_swaps [] = []
behind_swaps (r ∷ rest) = if has_buffer r then r ∷ rest else behind_swaps rest

walk-splits :
    (req tmp : Request) (queue : List Request)
    → (a : List Request) × (b : List Request) × (queue ≡ a ++ b)
      × (walk req tmp queue ≡ a ++ req ∷ b)
unfolding walk
walk-splits req tmp [] = ([], [], refl, refl)
walk-splits req tmp (next ∷ rest) =
    let (a, b, e, f) = walk-splits req next rest in
    elim (Bool-cases (stops req tmp next)) [
      | inl s ↦ ([], next ∷ rest, refl, rw s refl)
      | inr s ↦ (next ∷ a, b, ap (λ r. next ∷ r) e, rw s (ap (λ r. next ∷ r) f))
    ]

-- A request is put in somewhere behind the current one: nothing is lost, the others keep their
-- order, and the one that is being served stays in front, as nothing comes before it where the queue
-- was not empty. The driver is started exactly if the queue was empty.
pub add_request-inserts :
    (req : Request) (queue : List Request)
    → let (after, starts) = add_request req queue in
      (a : List Request) × (b : List Request) × (queue ≡ a ++ b)
      × (after ≡ a ++ req ∷ b)
      × (a ≡ [] → queue ≡ [])
      × ((starts ≡ true) ↔ (queue ≡ []))
unfolding add_request
add_request-inserts req [] = ([], [], refl, refl, λ e. refl, (λ e. refl, λ e. refl))
add_request-inserts req (current ∷ rest) =
    let (a, b, e, f) = walk-splits req current rest in
    (
      current ∷ a,
      b,
      ap (λ r. current ∷ r) e,
      ap (λ r. current ∷ r) f,
      λ e. absurd (ground arith),
      (λ e. ground arith, λ e. ground arith),
    )

walk-swap :
    (req tmp : Request) (rest : List Request)
    → has_buffer req ≡ false
    → walk req tmp rest ≡ swaps rest ++ req ∷ behind_swaps rest
unfolding walk swaps behind_swaps stops
walk-swap req tmp [] h = refl
walk-swap req tmp (next ∷ rest) h =
    let rest' = walk-swap req next rest h in
    elim (Bool-cases (has_buffer next)) [
      | inl e ↦ ground (arith, h, e, rest')
      | inr e ↦ ground (arith, h, e, rest')
    ]

-- A swapping request goes behind the current one and the swapping requests right behind that, and
-- before everything else.
pub add_request-swap :
    (req current : Request) (rest : List Request)
    → has_buffer req ≡ false
    → (add_request req (current ∷ rest)).0 ≡ current ∷ swaps rest ++ req ∷ behind_swaps rest
unfolding add_request
add_request-swap req current rest h = ap (λ r. current ∷ r) (walk-swap req current rest h)

in_order_trans : (a b c : Request) → in_order a b ≡ true → in_order b c ≡ true → in_order a c ≡ true
unfolding in_order
in_order_trans a b c h k = ground arith

not_before : (a b c : Request) → in_order a b ≡ true → in_order a c ≡ false → in_order b c ≡ false
not_before a b c h k = elim (Bool-cases (in_order b c)) [
  | inl e ↦ absurd (ground (arith, in_order_trans a b c h e, k))
  | inr e ↦ e
]

walk-sweep :
    (req tmp : Request) (rest : List Request)
    → has_buffer req ≡ true
    → turns tmp rest ≡ 0
    → all (apart req) rest ≡ true
    → turns tmp (walk req tmp rest) ≡ (if in_order tmp req then 0 else 1)
unfolding walk turns stops
walk-sweep req tmp [] h t d = omega arith
walk-sweep req tmp (next ∷ rest) h t d = elim (Bool-cases (in_order tmp next)) [
  | inr e ↦ absurd (ground (arith, e, t))
  | inl e ↦
      let t' : turns next rest ≡ 0 = ground (arith, e, t) in
      let d' : all (apart req) rest ≡ true = ground (arith, d) in
      let ih = walk-sweep req next rest h t' d' in
      elim (Bool-cases (in_order tmp req)) [
        | inl f ↦ elim (Bool-cases (in_order req next)) [
          | inl g ↦ ground (arith, h, t, e, f, g)
          | inr g ↦
              let before : in_order next req ≡ true = ground (arith, d, g) in
              ground (arith, h, e, f, g, before, ih)
        ]
        | inr f ↦
            let after : in_order next req ≡ false = not_before tmp next req e f in
            ground (arith, h, e, f, after, ih)
      ]
]

walk-turns :
    (req tmp : Request) (rest : List Request)
    → has_buffer req ≡ true
    → turns tmp (walk req tmp rest) ≤ turns tmp rest + 1
unfolding walk turns stops
walk-turns req tmp [] h = ground arith
walk-turns req tmp (next ∷ rest) h = ground (arith, h, walk-turns req next rest h)

-- The turns of a queue from the request that is being served on.
unfoldable pub turns_of : List Request → ℕ
turns_of [] = 0
turns_of (current ∷ rest) = turns current rest

-- A buffer request never adds more than one turn to a queue.
pub add_request-turns :
    (req : Request) (queue : List Request)
    → has_buffer req ≡ true
    → turns_of (add_request req queue).0 ≤ turns_of queue + 1
unfolding add_request turns_of turns
add_request-turns req [] h = omega arith
add_request-turns req (current ∷ rest) h = walk-turns req current rest h

-- A queue that is one sweep stays one sweep if the new buffer request comes after the one that is
-- being served, and gets a second sweep otherwise, as long as no request waits for the same place.
pub add_request-sweep :
    (req current : Request) (rest : List Request)
    → has_buffer req ≡ true
    → turns_of (current ∷ rest) ≡ 0
    → all (apart req) rest ≡ true
    → turns_of (add_request req (current ∷ rest)).0 ≡ (if in_order current req then 0 else 1)
unfolding add_request turns_of
add_request-sweep req current rest h t d = walk-sweep req current rest h t d

walk-last :
    (req tmp : Request) (rest : List Request)
    → has_buffer req ≡ true
    → all (λ x. not (in_order req x)) rest ≡ true
    → walk req tmp rest ≡ rest ++ req ∷ []
unfolding walk stops
walk-last req tmp [] h d = refl
walk-last req tmp (next ∷ rest) h d =
    let d' : all (λ x. not (in_order req x)) rest ≡ true = ground (arith, d) in
    ground (arith, h, d, walk-last req next rest h d')

-- A buffer request that comes before none of those that wait goes to the very end, also where it
-- belongs to the sweep under way and a second sweep waits.
pub add_request-last :
    (req current : Request) (rest : List Request)
    → has_buffer req ≡ true
    → all (λ x. not (in_order req x)) rest ≡ true
    → (add_request req (current ∷ rest)).0 ≡ current ∷ rest ++ req ∷ []
unfolding add_request
add_request-last req current rest h d = ap (λ r. current ∷ r) (walk-last req current rest h d)
