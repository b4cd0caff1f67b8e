-- ===== src/Fusion/Counts.antt =====
-- How the operations of the graph builder end: on the number of arguments that `op_spec` names,
-- `apply_op` reads no argument that is not there.
use polars_metal.Base.{
  ℕ, suc, ◌≡◌, refl, String, Option, none, some, List, [], ◌∷◌, Result, ok, err, ◌>>=◌, ◌>>◌, ok_or,
  collect, ℤ, length, All, ap, inl, inr, ok-injective, Result-cases, nat_eq, arith,
}
use polars_metal.Fusion.Ops.{OpId, op_spec}
use polars_metal.Fusion.Mlx.{MlxDtype, Unary, Binary, Scan, Mlx}
use polars_metal.Fusion.Subgraph.{
  BuildError, Failure, Built, ffi, arg_count, call1, call2, call_scan, cast, first_extent, apply_op,
}

-- No panic, and no error but those allowed.
abbrev pub Ends : {A : Type 0} → (BuildError → Type 0) → Built A → Type 0
Ends allowed (ok a) = Unit
Ends allowed (err (Failure.error e)) = allowed e
Ends allowed (err Failure.panic) = ⊥

pub bind-Ends :
    {A C : Type 0} (allowed : BuildError → Type 0) (m : Built A) (rest : A → Built C)
    → Ends allowed m
    → ((a : A) → m ≡ ok a → Ends allowed (rest a))
    → Ends allowed (m >>= rest)
bind-Ends allowed (ok a) rest first then_rest = then_rest a refl
bind-Ends allowed (err (Failure.error e)) rest first then_rest = first
bind-Ends allowed (err Failure.panic) rest first then_rest = first

pub Ends-weaken :
    {A : Type 0} {few many : BuildError → Type 0} (m : Built A)
    → ((e : BuildError) → few e → many e)
    → Ends few m
    → Ends many m
Ends-weaken (ok a) more h = tt
Ends-weaken (err (Failure.error e)) more h = more e h
Ends-weaken (err Failure.panic) more h = h

pub collect-Ends :
    {A C : Type 0} (allowed : BuildError → Type 0) (f : A → Built C) (xs : List A)
    → All (λ x. Ends allowed (f x)) xs
    → Ends allowed (collect f xs)
unfolding collect
collect-Ends allowed f [] h = tt
collect-Ends allowed f (x ∷ xs) h =
    bind-Ends allowed (f x) _ h.0
      (λ y at. bind-Ends allowed (collect f xs) _ (collect-Ends allowed f xs h.1) (λ ys at'. tt))

pub length-collect :
    {A C : Type 0} (f : A → Built C) (xs : List A) {ys : List C}
    → collect f xs ≡ ok ys
    → length ys ≡ length xs
unfolding collect
length-collect f [] h = rw (← ok-injective h) refl
length-collect f (x ∷ xs) h = elim (Result-cases (f x)) [
  | inl (e, failed) ↦ cc (rw failed at h)
  | inr (y, here) ↦ elim (Result-cases (collect f xs)) [
    | inl (e, failed) ↦ cc (rw (here, failed) at h)
    | inr (ys', there) ↦
        rw (← ok-injective (rw (here, there) at h)) (ap suc (length-collect f xs there))
  ]
]

-- The errors of MLX, and of an operation or a dtype that graphs cannot have.
abbrev pub Foreseen : BuildError → Type 0
Foreseen (BuildError.mlx_error text) = Unit
Foreseen (BuildError.unsupported_op op) = Unit
Foreseen BuildError.unsupported_input_dtype = Unit
Foreseen (BuildError.input_count_mismatch expected actual) = ⊥
Foreseen (BuildError.undefined_node idx) = ⊥
Foreseen (BuildError.arg_count_mismatch op expected actual) = ⊥

pub ffi-Ends : {A : Type 0} (r : Result String A) → Ends Foreseen (ffi r)
ffi-Ends (ok a) = tt
ffi-Ends (err e) = tt

module _ {H B : Type 0} (mlx : Mlx H B) where
  call1-Ends : (f : Unary) (args : List H) → length args ≡ 1 → Ends Foreseen (call1 mlx f args)
  call1-Ends f [] n = absurd (omega (arith, n))
  call1-Ends f (a ∷ args) n = ffi-Ends (mlx.unary f a)

  call2-Ends : (f : Binary) (args : List H) → length args ≡ 2 → Ends Foreseen (call2 mlx f args)
  call2-Ends f [] n = absurd (omega (arith, n))
  call2-Ends f (a ∷ []) n = absurd (omega (arith, n))
  call2-Ends f (a ∷ b ∷ args) n = ffi-Ends (mlx.binary f a b)

  scan-Ends : (f : Scan) (args : List H) → length args ≡ 1 → Ends Foreseen (call_scan mlx f args)
  scan-Ends f [] n = absurd (omega (arith, n))
  scan-Ends f (a ∷ args) n = ffi-Ends (mlx.scan f a 0)

  cast-Ends : (d : MlxDtype) (args : List H) → length args ≡ 1 → Ends Foreseen (cast mlx d args)
  cast-Ends d [] n = absurd (omega (arith, n))
  cast-Ends d (a ∷ args) n = ffi-Ends (mlx.mlx_cast a d)

  -- A check of the number of arguments that holds.
  counted :
      (op : OpId) (k : ℕ) (args : List H) (rest : Built H)
      → length args ≡ k
      → Ends Foreseen rest
      → Ends Foreseen (arg_count mlx op k args >> rest)
  counted op k args rest n h = rw n (ground (arith, h))

  where-Ends :
      (param : Option ℤ) (handles args : List H)
      → length args ≡ 3
      → Ends Foreseen (apply_op mlx OpId.where_op param handles args)
  unfolding apply_op
  where-Ends param handles [] n = absurd (omega (arith, n))
  where-Ends param handles (c ∷ []) n = absurd (omega (arith, n))
  where-Ends param handles (c ∷ t ∷ []) n = absurd (omega (arith, n))
  where-Ends param handles (c ∷ t ∷ f ∷ args) n =
      counted OpId.where_op 3 (c ∷ t ∷ f ∷ args) _ n (ffi-Ends (mlx.mlx_where c t f))

  shift-Ends :
      (param : Option ℤ) (handles args : List H)
      → length args ≡ 1
      → Ends Foreseen (apply_op mlx OpId.shift param handles args)
  unfolding apply_op
  shift-Ends param handles [] n = absurd (omega (arith, n))
  shift-Ends none handles (a ∷ args) n = counted OpId.shift 1 (a ∷ args) _ n tt
  shift-Ends (some w) handles (a ∷ args) n =
      counted OpId.shift 1 (a ∷ args) _ n (ffi-Ends (mlx.mlx_shift a w))

  row_index-Ends :
      (param : Option ℤ) (handles args : List H)
      → length args ≡ 0
      → Ends Foreseen (apply_op mlx OpId.row_index param handles args)
  unfolding apply_op
  row_index-Ends param handles args n = counted OpId.row_index 0 args _ n (
      bind-Ends Foreseen
        (ok_or (first_extent mlx handles)
          (Failure.error (BuildError.unsupported_op OpId.row_index)))
        _ (known (first_extent mlx handles)) (λ n_rows at. ffi-Ends (mlx.mlx_iota_f32 n_rows)))
    where
      known :
          (o : Option ℕ)
          → Ends Foreseen (ok_or o (Failure.error (BuildError.unsupported_op OpId.row_index)))
      known none = tt
      known (some a) = tt

  take-Ends :
      (param : Option ℤ) (handles args : List H)
      → length args ≡ 2
      → Ends Foreseen (apply_op mlx OpId.take param handles args)
  unfolding apply_op
  take-Ends param handles [] n = absurd (omega (arith, n))
  take-Ends param handles (a ∷ []) n = absurd (omega (arith, n))
  take-Ends param handles (source ∷ index ∷ args) n =
      counted OpId.take 2 (source ∷ index ∷ args) _ n (
        bind-Ends Foreseen (ffi (mlx.mlx_cast index MlxDtype.i32)) _
          (ffi-Ends (mlx.mlx_cast index MlxDtype.i32))
          (λ idx at. ffi-Ends (mlx.mlx_take source idx)))

  pub apply_op-Ends :
      (op : OpId) (param : Option ℤ) (handles args : List H)
      → length args ≡ (op_spec op).n_args
      → Ends Foreseen (apply_op mlx op param handles args)
  unfolding apply_op
  apply_op-Ends OpId.add param handles args n =
      counted OpId.add 2 args _ n (call2-Ends Binary.mlx_add args n)
  apply_op-Ends OpId.sub param handles args n =
      counted OpId.sub 2 args _ n (call2-Ends Binary.mlx_sub args n)
  apply_op-Ends OpId.mul param handles args n =
      counted OpId.mul 2 args _ n (call2-Ends Binary.mlx_mul args n)
  apply_op-Ends OpId.div param handles args n =
      counted OpId.div 2 args _ n (call2-Ends Binary.mlx_div args n)
  apply_op-Ends OpId.mod_op param handles args n =
      counted OpId.mod_op 2 args _ n (call2-Ends Binary.mlx_mod args n)
  apply_op-Ends OpId.pow param handles args n =
      counted OpId.pow 2 args _ n (call2-Ends Binary.mlx_pow args n)
  apply_op-Ends OpId.neg param handles args n =
      counted OpId.neg 1 args _ n (call1-Ends Unary.mlx_neg args n)
  apply_op-Ends OpId.abs param handles args n =
      counted OpId.abs 1 args _ n (call1-Ends Unary.mlx_abs args n)
  apply_op-Ends OpId.square param handles args n =
      counted OpId.square 1 args _ n (call1-Ends Unary.mlx_square args n)
  apply_op-Ends OpId.eq param handles args n = call2-Ends Binary.mlx_eq args n
  apply_op-Ends OpId.ne param handles args n = call2-Ends Binary.mlx_ne args n
  apply_op-Ends OpId.lt param handles args n = call2-Ends Binary.mlx_lt args n
  apply_op-Ends OpId.le param handles args n = call2-Ends Binary.mlx_le args n
  apply_op-Ends OpId.gt param handles args n = call2-Ends Binary.mlx_gt args n
  apply_op-Ends OpId.ge param handles args n = call2-Ends Binary.mlx_ge args n
  apply_op-Ends OpId.logical_and param handles args n = call2-Ends Binary.mlx_logical_and args n
  apply_op-Ends OpId.logical_or param handles args n = call2-Ends Binary.mlx_logical_or args n
  apply_op-Ends OpId.logical_not param handles args n = call1-Ends Unary.mlx_logical_not args n
  apply_op-Ends OpId.where_op param handles args n = where-Ends param handles args n
  apply_op-Ends OpId.sin param handles args n = call1-Ends Unary.mlx_sin args n
  apply_op-Ends OpId.cos param handles args n = call1-Ends Unary.mlx_cos args n
  apply_op-Ends OpId.tan param handles args n = call1-Ends Unary.mlx_tan args n
  apply_op-Ends OpId.sinh param handles args n = call1-Ends Unary.mlx_sinh args n
  apply_op-Ends OpId.cosh param handles args n = call1-Ends Unary.mlx_cosh args n
  apply_op-Ends OpId.tanh param handles args n = call1-Ends Unary.mlx_tanh args n
  apply_op-Ends OpId.asin param handles args n = call1-Ends Unary.mlx_asin args n
  apply_op-Ends OpId.acos param handles args n = call1-Ends Unary.mlx_acos args n
  apply_op-Ends OpId.atan param handles args n = call1-Ends Unary.mlx_atan args n
  apply_op-Ends OpId.atan2 param handles args n = call2-Ends Binary.mlx_atan2 args n
  apply_op-Ends OpId.log param handles args n = call1-Ends Unary.mlx_log args n
  apply_op-Ends OpId.log2 param handles args n = call1-Ends Unary.mlx_log2 args n
  apply_op-Ends OpId.log10 param handles args n = call1-Ends Unary.mlx_log10 args n
  apply_op-Ends OpId.log1p param handles args n = call1-Ends Unary.mlx_log1p args n
  apply_op-Ends OpId.exp param handles args n = call1-Ends Unary.mlx_exp args n
  apply_op-Ends OpId.exp2 param handles args n = call1-Ends Unary.mlx_exp2 args n
  apply_op-Ends OpId.sqrt param handles args n = call1-Ends Unary.mlx_sqrt args n
  apply_op-Ends OpId.cbrt param handles args n = call1-Ends Unary.mlx_cbrt args n
  apply_op-Ends OpId.floor param handles args n = call1-Ends Unary.mlx_floor args n
  apply_op-Ends OpId.ceil param handles args n = call1-Ends Unary.mlx_ceil args n
  apply_op-Ends OpId.round param handles args n = call1-Ends Unary.mlx_round args n
  apply_op-Ends OpId.cast_f32 param handles args n = cast-Ends MlxDtype.f32 args n
  apply_op-Ends OpId.cast_f64 param handles args n = cast-Ends MlxDtype.f64 args n
  apply_op-Ends OpId.cast_i32 param handles args n = cast-Ends MlxDtype.i32 args n
  apply_op-Ends OpId.cast_bool param handles args n = cast-Ends MlxDtype.bool args n
  apply_op-Ends OpId.sum param handles args n = call1-Ends Unary.mlx_sum args n
  apply_op-Ends OpId.mean param handles args n = call1-Ends Unary.mlx_mean args n
  apply_op-Ends OpId.min param handles args n = call1-Ends Unary.mlx_min args n
  apply_op-Ends OpId.max param handles args n = call1-Ends Unary.mlx_max args n
  apply_op-Ends OpId.std param handles args n = call1-Ends Unary.mlx_std args n
  apply_op-Ends OpId.var param handles args n = call1-Ends Unary.mlx_var args n
  apply_op-Ends OpId.arg_min param handles args n = call1-Ends Unary.mlx_argmin args n
  apply_op-Ends OpId.arg_max param handles args n = call1-Ends Unary.mlx_argmax args n
  apply_op-Ends OpId.sort param handles args n = call1-Ends Unary.mlx_sort args n
  apply_op-Ends OpId.arg_partition param handles args n = tt
  apply_op-Ends OpId.cum_sum param handles args n = scan-Ends Scan.mlx_cumsum args n
  apply_op-Ends OpId.cum_prod param handles args n = scan-Ends Scan.mlx_cumprod args n
  apply_op-Ends OpId.cum_max param handles args n = scan-Ends Scan.mlx_cummax args n
  apply_op-Ends OpId.cum_min param handles args n = scan-Ends Scan.mlx_cummin args n
  apply_op-Ends OpId.mat_mul param handles args n = call2-Ends Binary.mlx_matmul args n
  apply_op-Ends OpId.fft param handles args n = tt
  apply_op-Ends OpId.ifft param handles args n = tt
  apply_op-Ends OpId.shift param handles args n = shift-Ends param handles args n
  apply_op-Ends OpId.row_index param handles args n = row_index-Ends param handles args n
  apply_op-Ends OpId.take param handles args n = take-Ends param handles args n
