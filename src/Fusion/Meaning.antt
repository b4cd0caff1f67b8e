-- ===== src/Fusion/Meaning.antt =====
-- What the operations of a scope mean: the function of MLX that each is named after, and the value
-- of a node as a derivation over the expression below it.
use polars_metal.Base.{
  ℕ, ◌+◌, ◌≡◌, refl, String, Option, none, some, List, [], ◌∷◌, Result, ok, err, ◌>>◌, ok-injective,
  >>=-eq-ok, ℤ, nat_eq, length, get_elem?, Option-cases, inl, inr, ap, ◌⊎◌,
}
use polars_metal.Fusion.Ops.{OpId}
use polars_metal.Fusion.Scope.{OpNode}
use polars_metal.Fusion.Mlx.{MlxDtype, Unary, Binary, Scan, Mlx}
use polars_metal.Fusion.Subgraph.{Built, ffi, arg_count, call1, call2, call_scan, cast, apply_op}

pub data Meaning : Type 0 where
  one : Unary → Meaning
  two : Binary → Meaning
  scanned : Scan → Meaning
  cast_to : MlxDtype → Meaning
  chosen moved counted picked no_kernel : Meaning

abbrev pub meaning : OpId → Meaning
meaning OpId.add = Meaning.two Binary.mlx_add
meaning OpId.sub = Meaning.two Binary.mlx_sub
meaning OpId.mul = Meaning.two Binary.mlx_mul
meaning OpId.div = Meaning.two Binary.mlx_div
meaning OpId.mod_op = Meaning.two Binary.mlx_mod
meaning OpId.pow = Meaning.two Binary.mlx_pow
meaning OpId.neg = Meaning.one Unary.mlx_neg
meaning OpId.abs = Meaning.one Unary.mlx_abs
meaning OpId.square = Meaning.one Unary.mlx_square
meaning OpId.eq = Meaning.two Binary.mlx_eq
meaning OpId.ne = Meaning.two Binary.mlx_ne
meaning OpId.lt = Meaning.two Binary.mlx_lt
meaning OpId.le = Meaning.two Binary.mlx_le
meaning OpId.gt = Meaning.two Binary.mlx_gt
meaning OpId.ge = Meaning.two Binary.mlx_ge
meaning OpId.logical_and = Meaning.two Binary.mlx_logical_and
meaning OpId.logical_or = Meaning.two Binary.mlx_logical_or
meaning OpId.logical_not = Meaning.one Unary.mlx_logical_not
meaning OpId.where_op = Meaning.chosen
meaning OpId.sin = Meaning.one Unary.mlx_sin
meaning OpId.cos = Meaning.one Unary.mlx_cos
meaning OpId.tan = Meaning.one Unary.mlx_tan
meaning OpId.sinh = Meaning.one Unary.mlx_sinh
meaning OpId.cosh = Meaning.one Unary.mlx_cosh
meaning OpId.tanh = Meaning.one Unary.mlx_tanh
meaning OpId.asin = Meaning.one Unary.mlx_asin
meaning OpId.acos = Meaning.one Unary.mlx_acos
meaning OpId.atan = Meaning.one Unary.mlx_atan
meaning OpId.atan2 = Meaning.two Binary.mlx_atan2
meaning OpId.log = Meaning.one Unary.mlx_log
meaning OpId.log2 = Meaning.one Unary.mlx_log2
meaning OpId.log10 = Meaning.one Unary.mlx_log10
meaning OpId.log1p = Meaning.one Unary.mlx_log1p
meaning OpId.exp = Meaning.one Unary.mlx_exp
meaning OpId.exp2 = Meaning.one Unary.mlx_exp2
meaning OpId.sqrt = Meaning.one Unary.mlx_sqrt
meaning OpId.cbrt = Meaning.one Unary.mlx_cbrt
meaning OpId.floor = Meaning.one Unary.mlx_floor
meaning OpId.ceil = Meaning.one Unary.mlx_ceil
meaning OpId.round = Meaning.one Unary.mlx_round
meaning OpId.cast_f32 = Meaning.cast_to MlxDtype.f32
meaning OpId.cast_f64 = Meaning.cast_to MlxDtype.f64
meaning OpId.cast_i32 = Meaning.cast_to MlxDtype.i32
meaning OpId.cast_bool = Meaning.cast_to MlxDtype.bool
meaning OpId.sum = Meaning.one Unary.mlx_sum
meaning OpId.mean = Meaning.one Unary.mlx_mean
meaning OpId.min = Meaning.one Unary.mlx_min
meaning OpId.max = Meaning.one Unary.mlx_max
meaning OpId.std = Meaning.one Unary.mlx_std
meaning OpId.var = Meaning.one Unary.mlx_var
meaning OpId.arg_min = Meaning.one Unary.mlx_argmin
meaning OpId.arg_max = Meaning.one Unary.mlx_argmax
meaning OpId.sort = Meaning.one Unary.mlx_sort
meaning OpId.arg_partition = Meaning.no_kernel
meaning OpId.cum_sum = Meaning.scanned Scan.mlx_cumsum
meaning OpId.cum_prod = Meaning.scanned Scan.mlx_cumprod
meaning OpId.cum_max = Meaning.scanned Scan.mlx_cummax
meaning OpId.cum_min = Meaning.scanned Scan.mlx_cummin
meaning OpId.mat_mul = Meaning.two Binary.mlx_matmul
meaning OpId.fft = Meaning.no_kernel
meaning OpId.ifft = Meaning.no_kernel
meaning OpId.shift = Meaning.moved
meaning OpId.row_index = Meaning.counted
meaning OpId.take = Meaning.picked

module _ {H B : Type 0} (mlx : Mlx H B) where
  -- `h` is the value of an operation on its arguments; that of `counted` has none.
  abbrev pub Gives : Meaning → Option ℤ → List H → H → Type 0
  Gives (Meaning.one f) param (a ∷ args) h = mlx.unary f a ≡ ok h
  Gives (Meaning.two f) param (a ∷ b ∷ args) h = mlx.binary f a b ≡ ok h
  Gives (Meaning.scanned f) param (a ∷ args) h = mlx.scan f a 0 ≡ ok h
  Gives (Meaning.cast_to d) param (a ∷ args) h = mlx.mlx_cast a d ≡ ok h
  Gives Meaning.chosen param (c ∷ t ∷ f ∷ args) h = mlx.mlx_where c t f ≡ ok h
  Gives Meaning.moved (some w) (a ∷ args) h = mlx.mlx_shift a w ≡ ok h
  Gives Meaning.picked param (source ∷ index ∷ args) h =
      (idx : H) × (mlx.mlx_cast index MlxDtype.i32 ≡ ok idx) × (mlx.mlx_take source idx ≡ ok h)
  Gives m param args h = ⊥

  -- The numbers of the rows, as many as the first array has.
  abbrev pub Counts : H → H → Type 0
  Counts first h = (n : ℕ) × (get_elem? (mlx.shape first) 0 ≡ some n) × (mlx.mlx_iota_f32 n ≡ ok h)

  mutual
    -- The value of a node of a scope over arrays for its inputs.
    pub data Evaluates (views : List H) (ops : List OpNode) : ℕ → H → Type 0 where
      input : (i : ℕ) (h : H) → get_elem? views i ≡ some h → Evaluates views ops i h
      applied :
          (j : ℕ) (node : OpNode) (args : List H) (h : H)
          → get_elem? ops j ≡ some node
          → AllEvaluate views ops node.args args
          → Gives (meaning node.op) node.param args h
          → Evaluates views ops (length views + j) h
      rows :
          (j : ℕ) (node : OpNode) (first h : H)
          → get_elem? ops j ≡ some node
          → meaning node.op ≡ Meaning.counted
          → Evaluates views ops 0 first
          → Counts first h
          → Evaluates views ops (length views + j) h

    pub data AllEvaluate (views : List H) (ops : List OpNode) : List ℕ → List H → Type 0 where
      done : AllEvaluate views ops [] []
      more :
          {i : ℕ} {h : H} {idxs : List ℕ} {hs : List H}
          → Evaluates views ops i h
          → AllEvaluate views ops idxs hs
          → AllEvaluate views ops (i ∷ idxs) (h ∷ hs)

  ffi-ok : {A : Type 0} (r : Result String A) {a : A} → ffi r ≡ ok a → r ≡ ok a
  ffi-ok (ok a) h = ap ok (ok-injective h)
  ffi-ok (err e) h = cc

  call1-Gives :
      (f : Unary) (param : Option ℤ) (args : List H) {h : H}
      → call1 mlx f args ≡ ok h
      → Gives (Meaning.one f) param args h
  call1-Gives f param [] h = cc
  call1-Gives f param (a ∷ args) h = ffi-ok (mlx.unary f a) h

  call2-Gives :
      (f : Binary) (param : Option ℤ) (args : List H) {h : H}
      → call2 mlx f args ≡ ok h
      → Gives (Meaning.two f) param args h
  call2-Gives f param [] h = cc
  call2-Gives f param (a ∷ []) h = cc
  call2-Gives f param (a ∷ b ∷ args) h = ffi-ok (mlx.binary f a b) h

  call_scan-Gives :
      (f : Scan) (param : Option ℤ) (args : List H) {h : H}
      → call_scan mlx f args ≡ ok h
      → Gives (Meaning.scanned f) param args h
  call_scan-Gives f param [] h = cc
  call_scan-Gives f param (a ∷ args) h = ffi-ok (mlx.scan f a 0) h

  cast-Gives :
      (d : MlxDtype) (param : Option ℤ) (args : List H) {h : H}
      → cast mlx d args ≡ ok h
      → Gives (Meaning.cast_to d) param args h
  cast-Gives d param [] h = cc
  cast-Gives d param (a ∷ args) h = ffi-ok (mlx.mlx_cast a d) h

  -- The count of the arguments has been checked.
  checked :
      (op : OpId) (n : ℕ) (args : List H) {h : H} (rest : Built H)
      → (arg_count mlx op n args >> rest) ≡ ok h
      → rest ≡ ok h
  checked op n args rest h = (>>=-eq-ok (arg_count mlx op n args) (λ _. rest) h).2

  chosen-Gives :
      (param : Option ℤ) (handles args : List H) {h : H}
      → apply_op mlx OpId.where_op param handles args ≡ ok h
      → Gives Meaning.chosen param args h
  unfolding apply_op
  chosen-Gives param handles [] h = cc
  chosen-Gives param handles (c ∷ []) h = cc
  chosen-Gives param handles (c ∷ t ∷ []) h = cc
  chosen-Gives param handles (c ∷ t ∷ f ∷ args) h =
      ffi-ok (mlx.mlx_where c t f) (checked OpId.where_op 3 (c ∷ t ∷ f ∷ args) _ h)

  moved-Gives :
      (param : Option ℤ) (handles args : List H) {h : H}
      → apply_op mlx OpId.shift param handles args ≡ ok h
      → Gives Meaning.moved param args h
  unfolding apply_op
  moved-Gives none handles args h = cc (checked OpId.shift 1 args _ h)
  moved-Gives (some w) handles [] h = cc
  moved-Gives (some w) handles (a ∷ args) h =
      ffi-ok (mlx.mlx_shift a w) (checked OpId.shift 1 (a ∷ args) _ h)

  picked-Gives :
      (param : Option ℤ) (handles args : List H) {h : H}
      → apply_op mlx OpId.take param handles args ≡ ok h
      → Gives Meaning.picked param args h
  unfolding apply_op
  picked-Gives param handles [] h = cc
  picked-Gives param handles (s ∷ []) h = cc
  picked-Gives param handles (s ∷ index ∷ args) h =
      let (idx, casted, later) =
        >>=-eq-ok (ffi (mlx.mlx_cast index MlxDtype.i32)) _
          (checked OpId.take 2 (s ∷ index ∷ args) _ h) in
      (idx, ffi-ok _ casted, ffi-ok (mlx.mlx_take s idx) later)

  pub row_index-Counts :
      (param : Option ℤ) (handles args : List H) {h : H}
      → apply_op mlx OpId.row_index param handles args ≡ ok h
      → (first : H) × (get_elem? handles 0 ≡ some first) × Counts first h
  unfolding apply_op
  row_index-Counts param [] args h = cc (checked OpId.row_index 0 args _ h)
  row_index-Counts param (first ∷ handles) args h =
      let counted = checked OpId.row_index 0 args _ h in
      elim (Option-cases (get_elem? (mlx.shape first) 0)) [
        | inl scalar ↦ cc (rw scalar at counted)
        | inr (n, e) ↦ (first, refl, (n, e, ffi-ok (mlx.mlx_iota_f32 n) (rw e at counted)))
      ]

  -- What an operation that succeeds has answered.
  pub apply_op-Gives :
      (op : OpId) (param : Option ℤ) (handles args : List H) {h : H}
      → apply_op mlx op param handles args ≡ ok h
      → Gives (meaning op) param args h ⊎ (op ≡ OpId.row_index)
  unfolding apply_op
  apply_op-Gives OpId.add param handles args h =
      inl (call2-Gives Binary.mlx_add param args (checked OpId.add 2 args _ h))
  apply_op-Gives OpId.sub param handles args h =
      inl (call2-Gives Binary.mlx_sub param args (checked OpId.sub 2 args _ h))
  apply_op-Gives OpId.mul param handles args h =
      inl (call2-Gives Binary.mlx_mul param args (checked OpId.mul 2 args _ h))
  apply_op-Gives OpId.div param handles args h =
      inl (call2-Gives Binary.mlx_div param args (checked OpId.div 2 args _ h))
  apply_op-Gives OpId.mod_op param handles args h =
      inl (call2-Gives Binary.mlx_mod param args (checked OpId.mod_op 2 args _ h))
  apply_op-Gives OpId.pow param handles args h =
      inl (call2-Gives Binary.mlx_pow param args (checked OpId.pow 2 args _ h))
  apply_op-Gives OpId.neg param handles args h =
      inl (call1-Gives Unary.mlx_neg param args (checked OpId.neg 1 args _ h))
  apply_op-Gives OpId.abs param handles args h =
      inl (call1-Gives Unary.mlx_abs param args (checked OpId.abs 1 args _ h))
  apply_op-Gives OpId.square param handles args h =
      inl (call1-Gives Unary.mlx_square param args (checked OpId.square 1 args _ h))
  apply_op-Gives OpId.eq param handles args h = inl (call2-Gives Binary.mlx_eq param args h)
  apply_op-Gives OpId.ne param handles args h = inl (call2-Gives Binary.mlx_ne param args h)
  apply_op-Gives OpId.lt param handles args h = inl (call2-Gives Binary.mlx_lt param args h)
  apply_op-Gives OpId.le param handles args h = inl (call2-Gives Binary.mlx_le param args h)
  apply_op-Gives OpId.gt param handles args h = inl (call2-Gives Binary.mlx_gt param args h)
  apply_op-Gives OpId.ge param handles args h = inl (call2-Gives Binary.mlx_ge param args h)
  apply_op-Gives OpId.logical_and param handles args h =
      inl (call2-Gives Binary.mlx_logical_and param args h)
  apply_op-Gives OpId.logical_or param handles args h =
      inl (call2-Gives Binary.mlx_logical_or param args h)
  apply_op-Gives OpId.logical_not param handles args h =
      inl (call1-Gives Unary.mlx_logical_not param args h)
  apply_op-Gives OpId.where_op param handles args h = inl (chosen-Gives param handles args h)
  apply_op-Gives OpId.sin param handles args h = inl (call1-Gives Unary.mlx_sin param args h)
  apply_op-Gives OpId.cos param handles args h = inl (call1-Gives Unary.mlx_cos param args h)
  apply_op-Gives OpId.tan param handles args h = inl (call1-Gives Unary.mlx_tan param args h)
  apply_op-Gives OpId.sinh param handles args h = inl (call1-Gives Unary.mlx_sinh param args h)
  apply_op-Gives OpId.cosh param handles args h = inl (call1-Gives Unary.mlx_cosh param args h)
  apply_op-Gives OpId.tanh param handles args h = inl (call1-Gives Unary.mlx_tanh param args h)
  apply_op-Gives OpId.asin param handles args h = inl (call1-Gives Unary.mlx_asin param args h)
  apply_op-Gives OpId.acos param handles args h = inl (call1-Gives Unary.mlx_acos param args h)
  apply_op-Gives OpId.atan param handles args h = inl (call1-Gives Unary.mlx_atan param args h)
  apply_op-Gives OpId.atan2 param handles args h = inl (call2-Gives Binary.mlx_atan2 param args h)
  apply_op-Gives OpId.log param handles args h = inl (call1-Gives Unary.mlx_log param args h)
  apply_op-Gives OpId.log2 param handles args h = inl (call1-Gives Unary.mlx_log2 param args h)
  apply_op-Gives OpId.log10 param handles args h = inl (call1-Gives Unary.mlx_log10 param args h)
  apply_op-Gives OpId.log1p param handles args h = inl (call1-Gives Unary.mlx_log1p param args h)
  apply_op-Gives OpId.exp param handles args h = inl (call1-Gives Unary.mlx_exp param args h)
  apply_op-Gives OpId.exp2 param handles args h = inl (call1-Gives Unary.mlx_exp2 param args h)
  apply_op-Gives OpId.sqrt param handles args h = inl (call1-Gives Unary.mlx_sqrt param args h)
  apply_op-Gives OpId.cbrt param handles args h = inl (call1-Gives Unary.mlx_cbrt param args h)
  apply_op-Gives OpId.floor param handles args h = inl (call1-Gives Unary.mlx_floor param args h)
  apply_op-Gives OpId.ceil param handles args h = inl (call1-Gives Unary.mlx_ceil param args h)
  apply_op-Gives OpId.round param handles args h = inl (call1-Gives Unary.mlx_round param args h)
  apply_op-Gives OpId.cast_f32 param handles args h = inl (cast-Gives MlxDtype.f32 param args h)
  apply_op-Gives OpId.cast_f64 param handles args h = inl (cast-Gives MlxDtype.f64 param args h)
  apply_op-Gives OpId.cast_i32 param handles args h = inl (cast-Gives MlxDtype.i32 param args h)
  apply_op-Gives OpId.cast_bool param handles args h = inl (cast-Gives MlxDtype.bool param args h)
  apply_op-Gives OpId.sum param handles args h = inl (call1-Gives Unary.mlx_sum param args h)
  apply_op-Gives OpId.mean param handles args h = inl (call1-Gives Unary.mlx_mean param args h)
  apply_op-Gives OpId.min param handles args h = inl (call1-Gives Unary.mlx_min param args h)
  apply_op-Gives OpId.max param handles args h = inl (call1-Gives Unary.mlx_max param args h)
  apply_op-Gives OpId.std param handles args h = inl (call1-Gives Unary.mlx_std param args h)
  apply_op-Gives OpId.var param handles args h = inl (call1-Gives Unary.mlx_var param args h)
  apply_op-Gives OpId.arg_min param handles args h = inl (call1-Gives Unary.mlx_argmin param args h)
  apply_op-Gives OpId.arg_max param handles args h = inl (call1-Gives Unary.mlx_argmax param args h)
  apply_op-Gives OpId.sort param handles args h = inl (call1-Gives Unary.mlx_sort param args h)
  apply_op-Gives OpId.arg_partition param handles args h = cc
  apply_op-Gives OpId.cum_sum param handles args h =
      inl (call_scan-Gives Scan.mlx_cumsum param args h)
  apply_op-Gives OpId.cum_prod param handles args h =
      inl (call_scan-Gives Scan.mlx_cumprod param args h)
  apply_op-Gives OpId.cum_max param handles args h =
      inl (call_scan-Gives Scan.mlx_cummax param args h)
  apply_op-Gives OpId.cum_min param handles args h =
      inl (call_scan-Gives Scan.mlx_cummin param args h)
  apply_op-Gives OpId.mat_mul param handles args h =
      inl (call2-Gives Binary.mlx_matmul param args h)
  apply_op-Gives OpId.fft param handles args h = cc
  apply_op-Gives OpId.ifft param handles args h = cc
  apply_op-Gives OpId.shift param handles args h = inl (moved-Gives param handles args h)
  apply_op-Gives OpId.row_index param handles args h = inr refl
  apply_op-Gives OpId.take param handles args h = inl (picked-Gives param handles args h)
