-- ===== src/Udf.antt =====
-- udf/groupby/mod.rs of polars-metal-core: the plan's types as the kernels' types.
use polars_metal.Base.{Result, ok, err}
use polars_metal.Plan.{MetalDtype}
use polars_metal.Groupby.Keys.{KeyDtype}

-- The text of the one error is left out.
unfoldable pub metal_dtype_to_key_dtype : MetalDtype → Result (Unit {0}) KeyDtype
metal_dtype_to_key_dtype MetalDtype.i64 = ok KeyDtype.i64
metal_dtype_to_key_dtype MetalDtype.f64 = ok KeyDtype.f64
metal_dtype_to_key_dtype MetalDtype.bool = ok KeyDtype.bool
metal_dtype_to_key_dtype MetalDtype.i32 = ok KeyDtype.i32
metal_dtype_to_key_dtype MetalDtype.f32 = ok KeyDtype.f32
metal_dtype_to_key_dtype MetalDtype.i8 = ok KeyDtype.i8
metal_dtype_to_key_dtype MetalDtype.i16 = ok KeyDtype.i16
metal_dtype_to_key_dtype MetalDtype.u8 = ok KeyDtype.u8
metal_dtype_to_key_dtype MetalDtype.u16 = ok KeyDtype.u16
metal_dtype_to_key_dtype MetalDtype.u32 = ok KeyDtype.u32
metal_dtype_to_key_dtype MetalDtype.utf8 = ok KeyDtype.utf8
metal_dtype_to_key_dtype MetalDtype.u64 = err tt
