-- ===== src/Fusion/Mlx.antt =====
-- array.rs of polars-metal-mlx-sys: the dtypes of MLX arrays; and what the graph builder calls of
-- MLX, which is an argument: the functions of an array, of two, and the scans go by their names.
use polars_metal.Base.{ℕ, String, List, [], ◌∷◌, Result, ok_or, lookup, ℤ, nat_eq}

pub data MlxDtype : Type 0 where
  f32 f64 i32 bool i8 i16 i64 u8 u16 u32 u64 : MlxDtype

abbrev pub element_size : MlxDtype → ℕ
element_size MlxDtype.bool = 1
element_size MlxDtype.i8 = 1
element_size MlxDtype.u8 = 1
element_size MlxDtype.i16 = 2
element_size MlxDtype.u16 = 2
element_size MlxDtype.f32 = 4
element_size MlxDtype.i32 = 4
element_size MlxDtype.u32 = 4
element_size MlxDtype.f64 = 8
element_size MlxDtype.i64 = 8
element_size MlxDtype.u64 = 8

-- The discriminant of a dtype, the tag that C++ and Python hand over.
abbrev pub tag : MlxDtype → ℕ
tag MlxDtype.f32 = 0
tag MlxDtype.f64 = 1
tag MlxDtype.i32 = 2
tag MlxDtype.bool = 3
tag MlxDtype.i8 = 4
tag MlxDtype.i16 = 5
tag MlxDtype.i64 = 6
tag MlxDtype.u8 = 7
tag MlxDtype.u16 = 8
tag MlxDtype.u32 = 9
tag MlxDtype.u64 = 10

-- `MlxDtype::from_tag`
abbrev pub dtype_tags : List (ℕ × MlxDtype)
dtype_tags =
    (0, MlxDtype.f32)
    ∷ (1, MlxDtype.f64)
    ∷ (2, MlxDtype.i32)
    ∷ (3, MlxDtype.bool)
    ∷ (4, MlxDtype.i8)
    ∷ (5, MlxDtype.i16)
    ∷ (6, MlxDtype.i64)
    ∷ (7, MlxDtype.u8)
    ∷ (8, MlxDtype.u16)
    ∷ (9, MlxDtype.u32)
    ∷ (10, MlxDtype.u64)
    ∷ []

unfoldable pub from_tag : ℕ → Result String MlxDtype
unfolding lookup
from_tag t = ok_or (lookup t dtype_tags) "unknown MlxDtype tag"

pub data Unary : Type 0 where
  mlx_neg mlx_abs mlx_square mlx_logical_not mlx_sin mlx_cos : Unary
  mlx_tan mlx_sinh mlx_cosh mlx_tanh mlx_asin mlx_acos : Unary
  mlx_atan mlx_log mlx_log2 mlx_log10 mlx_log1p mlx_exp : Unary
  mlx_exp2 mlx_sqrt mlx_cbrt mlx_floor mlx_ceil mlx_round : Unary
  mlx_sum mlx_mean mlx_min mlx_max mlx_std mlx_var : Unary
  mlx_argmin mlx_argmax mlx_sort : Unary

pub data Binary : Type 0 where
  mlx_add mlx_sub mlx_mul mlx_div mlx_mod mlx_pow : Binary
  mlx_eq mlx_ne mlx_lt mlx_le mlx_gt mlx_ge : Binary
  mlx_logical_and mlx_logical_or mlx_atan2 mlx_matmul : Binary

pub data Scan : Type 0 where
  mlx_cumsum mlx_cumprod mlx_cummax mlx_cummin : Scan

-- `H` stands for `MlxArrayHandle`, `B` for a buffer; an `FfiError` is its text.
pub record Mlx (H B : Type 0) : Type 0 where
  pub unary : Unary → H → Result String H
  pub binary : Binary → H → H → Result String H
  pub scan : Scan → H → ℕ → Result String H
  pub mlx_where : H → H → H → Result String H
  pub mlx_cast : H → MlxDtype → Result String H
  pub mlx_shift : H → ℤ → Result String H
  pub mlx_iota_f32 : ℕ → Result String H
  pub mlx_take : H → H → Result String H
  pub shape : H → List ℕ
  pub dtype : H → Result String MlxDtype
  pub mlx_array_eval : List H → Result String (Unit {0})
  pub to_vec : MlxDtype → H → Result String (List ℕ)
  pub from_f32_slice : List ℕ → Result String H
  pub view_metal_buffer : B → List ℕ → MlxDtype → Result String H
