-- ===== src/WallView/Grid.antt =====
-- Where a tile stands in the grid of lib/WallView.cpp.
use wall_mon.Base.{
  ℕ, zero, suc, ◌+◌, ◌*◌, ◌/◌, ◌%◌, ◌≤◌, ◌<◌, ◌≡◌, refl, ap, ap₂, ◌∙◌, arith, String, List, [], ◌∷◌,
  ◌++◌, length, get_or, get_or-append, lt→ltb,
}
use native.Mathlib.Nat.{mul-add-div_right, mul-add-mod_self_right, mod-eq_of_lt, div-eq_of_lt}
use wall_mon.WallView.{WallView, tile, row, rows, init, index_to_coordinates}

row-suc : (left j i : ℕ) → j < 7 → row (suc left) j i ≡ tile j i ∷ row left (suc j) i
unfolding row
row-suc left j i h = rw (lt→ltb j 7 h) refl

length-row : (left j i : ℕ) → j + left ≤ 7 → length (row left j i) ≡ left
unfolding row
length-row zero j i h = refl
length-row (suc left) j i h =
    ap length (row-suc left j i (omega arith)) ∙ ap suc (length-row left (suc j) i (omega arith))

get_or-row :
    (k left j i : ℕ) → k < left → j + left ≤ 7 → get_or (row left j i) k "" ≡ tile (j + k) i
get_or-row k zero j i h g = absurd (omega arith)
get_or-row zero (suc left) j i h g =
    ap (λ l. get_or l 0 "") (row-suc left j i (omega arith)) ∙ ap (λ n. tile n i) (omega arith)
get_or-row (suc k) (suc left) j i h g =
    ap (λ l. get_or l (suc k) "") (row-suc left j i (omega arith))
    ∙ get_or-row k left (suc j) i (omega arith) (omega arith)
    ∙ ap (λ n. tile n i) (omega arith)

get_or-skip :
    (n k : ℕ) (xs ys : List String) → k ≡ length xs + n → get_or (xs ++ ys) k "" ≡ get_or ys n ""
get_or-skip n k [] ys e = ap (λ t. get_or ys t "") (omega arith)
get_or-skip n zero (x ∷ xs) ys e = absurd (omega arith)
get_or-skip n (suc k) (x ∷ xs) ys e = get_or-skip n k xs ys (omega arith)

rows-suc : (x w left i : ℕ) → i < 4 → rows x w (suc left) i ≡ row w x i ++ rows x w left (suc i)
unfolding rows
rows-suc x w left i h = rw (lt→ltb i 4 h) refl

get_or-rows :
    (x w k r left i n : ℕ)
    → k < w
    → r < left
    → x + w ≤ 7
    → i + left ≤ 4
    → n ≡ r * w + k
    → get_or (rows x w left i) n "" ≡ tile (x + k) (i + r)
get_or-rows x w k r zero i n hk hr hx hi e = absurd (omega arith)
get_or-rows x w k zero (suc left) i n hk hr hx hi e =
    ap (λ l. get_or l n "") (rows-suc x w left i (omega arith))
    ∙ get_or-append n (row w x i) (rows x w left (suc i)) "" (omega (arith, length-row w x i hx))
    ∙ ap (λ t. get_or (row w x i) t "") first
    ∙ get_or-row k w x i hk hx
    ∙ ap (tile (x + k)) (omega arith)
  where
    first : n ≡ k
    first = omega arith
get_or-rows x w k (suc r) (suc left) i n hk hr hx hi e =
    ap (λ l. get_or l n "") (rows-suc x w left i (omega arith))
    ∙ get_or-skip (r * w + k) n (row w x i) (rows x w left (suc i))
        (omega (arith, length-row w x i hx))
    ∙ get_or-rows x w k r left (suc i) (r * w + k) hk (omega arith) hx (omega arith) refl
    ∙ ap (tile (x + k)) (omega arith)

-- For a grid that lies on the wall: the tile in column `k` and row `r` of the grid stands at the
-- index `r * w + k` of the grid's list, and `_IndexToCoordinates` takes this index back to `k` and
-- `r`.
pub init-tiles :
    (x y w h k r : ℕ)
    → x + w ≤ 7
    → y + h ≤ 4
    → k < w
    → r < h
    → let v : WallView = init x y w h in
      (get_or v.grid (r * w + k) "" ≡ tile (x + k) (y + r))
      × (index_to_coordinates (r * w + k) v ≡ (k, r))
unfolding init index_to_coordinates
init-tiles x y w h k r hx hy hk hr = (
  get_or-rows x w k r h y (r * w + k) hk hr hx hy refl,
  ap₂ (λ a b. (a, b)) column (mul-add-div_right (omega arith) r k ∙ row_of),
)
  where
    column : (r * w + k) % w ≡ k
    column = mul-add-mod_self_right r w k ∙ mod-eq_of_lt hk

    row_of : r + k / w ≡ r
    row_of = omega (arith, div-eq_of_lt hk)
