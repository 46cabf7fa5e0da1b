-- ===== src/Index/Volume.antt =====
-- Three-dimensional boxes and grids of crates/temnion-index/src/lib.rs.
use temnion.Prelude.{
  ℕ, ◌+◌, ◌-◌, ◌/◌, List, [], ◌∷◌, ◌++◌, Bool, ◌&&◌, leb, ◌==◌, Outcome, ok, err, if◌then◌else◌,
}
use temnion.Index.Segment.{IndexError, format, zero_chunk}
use temnion.Index.Morton.{morton_encode_3d, range, sort_codes, dedup, merge_consecutive_codes}

pub record GridChunker3D : Type 0 where
  pub chunk_size : ℕ

abbrev pub new_chunker_3d : ℕ → Outcome IndexError GridChunker3D
new_chunker_3d chunk_size =
    if chunk_size == 0 then err (format zero_chunk) else ok (record { chunk_size = chunk_size })

abbrev pub chunk_coords_3d : GridChunker3D → ℕ → ℕ → ℕ → ℕ × ℕ × ℕ
chunk_coords_3d chunker x y z =
    (x / chunker.chunk_size, y / chunker.chunk_size, z / chunker.chunk_size)

abbrev pub chunk_morton_3d : GridChunker3D → ℕ → ℕ → ℕ → ℕ
chunk_morton_3d chunker x y z =
    let (cx, cy, cz) = chunk_coords_3d chunker x y z in morton_encode_3d cx cy cz

pub record BoundingBox3D : Type 0 where
  pub min_x : ℕ
  pub min_y : ℕ
  pub min_z : ℕ
  pub max_x : ℕ
  pub max_y : ℕ
  pub max_z : ℕ

abbrev pub contains_point_3d : BoundingBox3D → ℕ → ℕ → ℕ → Bool
contains_point_3d b x y z =
    leb b.min_x x
    && (leb x b.max_x && (leb b.min_y y && (leb y b.max_y && (leb b.min_z z && leb z b.max_z))))

abbrev pub intersects_3d : BoundingBox3D → BoundingBox3D → Bool
intersects_3d b other =
    leb b.min_x other.max_x
    && (leb other.min_x b.max_x
        && (leb b.min_y other.max_y
            && (leb other.min_y b.max_y && (leb b.min_z other.max_z && leb other.min_z b.max_z))))

unfoldable pub line_codes : ℕ → ℕ → List ℕ → List ℕ
line_codes cy cz [] = []
line_codes cy cz (cx ∷ xs) = morton_encode_3d cx cy cz ∷ line_codes cy cz xs

unfoldable pub plane_codes : ℕ → List ℕ → List ℕ → List ℕ
plane_codes cz xs [] = []
plane_codes cz xs (cy ∷ ys) = line_codes cy cz xs ++ plane_codes cz xs ys

unfoldable pub volume_codes : List ℕ → List ℕ → List ℕ → List ℕ
volume_codes xs ys [] = []
volume_codes xs ys (cz ∷ zs) = plane_codes cz xs ys ++ volume_codes xs ys zs

unfoldable pub morton_intervals_chunked_3d : BoundingBox3D → GridChunker3D → List (ℕ × ℕ)
morton_intervals_chunked_3d b chunker =
    let (min_cx, min_cy, min_cz) = chunk_coords_3d chunker b.min_x b.min_y b.min_z in
    let (max_cx, max_cy, max_cz) = chunk_coords_3d chunker b.max_x b.max_y b.max_z in
    merge_consecutive_codes (
      dedup (
        sort_codes (
          volume_codes (range min_cx (max_cx + 1 - min_cx)) (range min_cy (max_cy + 1 - min_cy))
            (range min_cz (max_cz + 1 - min_cz)))))
