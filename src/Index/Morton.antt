-- ===== src/Index/Morton.antt =====
-- Space-filling curves and grids of crates/temnion-index/src/lib.rs.
use temnion.Prelude.{
  ℕ, zero, suc, ◌+◌, ◌-◌, ◌*◌, ◌/◌, min, List, [], ◌∷◌, ◌++◌, Bool, ◌&&◌, ltb, leb, ◌==◌, bitwise,
  bit_or, shift_left, shift_right, as_u32, Outcome, ok, err, if◌then◌else◌,
}
use temnion.Index.Segment.{IndexError, format, zero_chunk}

unfoldable pub bit_and : ℕ → ℕ → ℕ → ℕ
bit_and w a b = bitwise min w a b

-- One step of `morton_spread_2d`: `(x | (x << k)) & mask`
abbrev pub spread_step : ℕ → ℕ → ℕ → ℕ
spread_step x k mask = bit_and 64 (bit_or 64 x (shift_left 64 x k)) mask

unfoldable pub morton_spread_2d : ℕ → ℕ
morton_spread_2d v =
    let a = spread_step v 16 0x0000ffff0000ffff in
    let b = spread_step a 8 0x00ff00ff00ff00ff in
    let c = spread_step b 4 0x0f0f0f0f0f0f0f0f in
    let d = spread_step c 2 0x3333333333333333 in spread_step d 1 0x5555555555555555

-- One step of `morton_compact_2d`: `(x | (x >> k)) & mask`
abbrev pub compact_step : ℕ → ℕ → ℕ → ℕ
compact_step x k mask = bit_and 64 (bit_or 64 x (shift_right x k)) mask

unfoldable pub morton_compact_2d : ℕ → ℕ
morton_compact_2d x =
    let a = bit_and 64 x 0x5555555555555555 in
    let b = compact_step a 1 0x3333333333333333 in
    let c = compact_step b 2 0x0f0f0f0f0f0f0f0f in
    let d = compact_step c 4 0x00ff00ff00ff00ff in
    let e = compact_step d 8 0x0000ffff0000ffff in as_u32 (compact_step e 16 0x00000000ffffffff)

unfoldable pub morton_encode_2d : ℕ → ℕ → ℕ
morton_encode_2d x y = bit_or 64 (morton_spread_2d x) (shift_left 64 (morton_spread_2d y) 1)

unfoldable pub morton_decode_2d : ℕ → ℕ × ℕ
morton_decode_2d code = (morton_compact_2d code, morton_compact_2d (shift_right code 1))

-- The loops run over the bits from `i` on, of which `left` are left.
unfoldable pub spread_from : ℕ → ℕ → ℕ → ℕ → ℕ
spread_from zero i v code = code
spread_from (suc left) i v code =
    spread_from left (i + 1) v
      (bit_or 64 code (shift_left 64 (bit_and 64 (shift_right v i) 1) (3 * i)))

unfoldable pub morton_spread_3d : ℕ → ℕ
morton_spread_3d v = spread_from 21 0 v 0

unfoldable pub compact_from : ℕ → ℕ → ℕ → ℕ → ℕ
compact_from zero i code v = v
compact_from (suc left) i code v =
    compact_from left (i + 1) code
      (bit_or 32 v (shift_left 32 (as_u32 (bit_and 64 (shift_right code (3 * i)) 1)) i))

unfoldable pub morton_compact_3d : ℕ → ℕ
morton_compact_3d code = compact_from 21 0 code 0

unfoldable pub morton_encode_3d : ℕ → ℕ → ℕ → ℕ
morton_encode_3d x y z =
    bit_or 64 (bit_or 64 (morton_spread_3d x) (shift_left 64 (morton_spread_3d y) 1))
      (shift_left 64 (morton_spread_3d z) 2)

unfoldable pub morton_decode_3d : ℕ → ℕ × ℕ × ℕ
morton_decode_3d code = (
  morton_compact_3d code,
  morton_compact_3d (shift_right code 1),
  morton_compact_3d (shift_right code 2),
)

pub record GridChunker2D : Type 0 where
  pub chunk_size : ℕ

abbrev pub new_chunker_2d : ℕ → Outcome IndexError GridChunker2D
new_chunker_2d chunk_size =
    if chunk_size == 0 then err (format zero_chunk) else ok (record { chunk_size = chunk_size })

abbrev pub chunk_coords_2d : GridChunker2D → ℕ → ℕ → ℕ × ℕ
chunk_coords_2d chunker x y = (x / chunker.chunk_size, y / chunker.chunk_size)

abbrev pub chunk_morton_2d : GridChunker2D → ℕ → ℕ → ℕ
chunk_morton_2d chunker x y = let (cx, cy) = chunk_coords_2d chunker x y in morton_encode_2d cx cy

pub record BoundingBox2D : Type 0 where
  pub min_x : ℕ
  pub min_y : ℕ
  pub max_x : ℕ
  pub max_y : ℕ

abbrev pub contains_point : BoundingBox2D → ℕ → ℕ → Bool
contains_point b x y = leb b.min_x x && (leb x b.max_x && (leb b.min_y y && leb y b.max_y))

abbrev pub intersects : BoundingBox2D → BoundingBox2D → Bool
intersects b other =
    leb b.min_x other.max_x
    && (leb other.min_x b.max_x && (leb b.min_y other.max_y && leb other.min_y b.max_y))

-- The inclusive range of `count` numbers from `first` on.
unfoldable pub range : ℕ → ℕ → List ℕ
range first zero = []
range first (suc count) = first ∷ range (first + 1) count

unfoldable pub row_codes : ℕ → List ℕ → List ℕ
row_codes cy [] = []
row_codes cy (cx ∷ xs) = morton_encode_2d cx cy ∷ row_codes cy xs

unfoldable pub all_codes : List ℕ → List ℕ → List ℕ
all_codes xs [] = []
all_codes xs (cy ∷ ys) = row_codes cy xs ++ all_codes xs ys

unfoldable pub insert_code : ℕ → List ℕ → List ℕ
insert_code c [] = c ∷ []
insert_code c (x ∷ xs) = if ltb x c then x ∷ insert_code c xs else c ∷ x ∷ xs

unfoldable pub sort_codes : List ℕ → List ℕ
sort_codes [] = []
sort_codes (c ∷ codes) = insert_code c (sort_codes codes)

-- `dedup` behind an entry that was kept.
unfoldable pub dedup_after : ℕ → List ℕ → List ℕ
dedup_after c [] = []
dedup_after c (x ∷ xs) = if x == c then dedup_after c xs else x ∷ dedup_after x xs

unfoldable pub dedup : List ℕ → List ℕ
dedup [] = []
dedup (c ∷ codes) = c ∷ dedup_after c codes

-- The loop of `merge_consecutive_codes`, with the interval that is open.
unfoldable pub merge_from : ℕ → ℕ → List ℕ → List (ℕ × ℕ)
merge_from start end [] = (start, end) ∷ []
merge_from start end (code ∷ codes) =
    if code == end + 1
    then merge_from start code codes
    else (start, end) ∷ merge_from code code codes

unfoldable pub merge_consecutive_codes : List ℕ → List (ℕ × ℕ)
merge_consecutive_codes [] = []
merge_consecutive_codes (code ∷ codes) = merge_from code code codes

unfoldable pub morton_intervals_chunked : BoundingBox2D → GridChunker2D → List (ℕ × ℕ)
morton_intervals_chunked b chunker =
    let (min_cx, min_cy) = chunk_coords_2d chunker b.min_x b.min_y in
    let (max_cx, max_cy) = chunk_coords_2d chunker b.max_x b.max_y in
    merge_consecutive_codes (
      dedup (
        sort_codes
          (all_codes (range min_cx (max_cx + 1 - min_cx)) (range min_cy (max_cy + 1 - min_cy)))))
