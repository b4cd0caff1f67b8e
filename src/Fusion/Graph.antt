-- ===== src/Fusion/Graph.antt =====
-- The graph of a scope: how its construction ends, and what its handles are.
use polars_metal.Base.{
  ℕ, suc, ◌+◌, ◌/◌, ◌<◌, ◌≡◌, refl, ap, ◌∙◌, inl, inr, List, [], ◌∷◌, ◌++◌, ok, ok-injective,
  >>=-eq-ok, collect, Bool-cases, Option-cases, All, length, length-append, get_elem?,
  get_elem?-some, ◌==◌, nat_eq, nat_beq_iff, arith,
}
use polars_metal.Fusion.Ops.{op_spec}
use polars_metal.Fusion.Scope.{InputDtype, InputRef, OpNode, FusionScope}
use polars_metal.Fusion.Mlx.{Mlx, element_size}
use polars_metal.Fusion.Subgraph.{
  BuildError, input_dtype_to_mlx, apply_op, node_handle, build_op, build_ops, build_graph,
  check_inputs, view_input, zip, from_fusion_scope_buffers,
}
use polars_metal.Fusion.Counts.{
  Ends, bind-Ends, Ends-weaken, collect-Ends, length-collect, Foreseen, ffi-Ends, apply_op-Ends,
}
use polars_metal.Fusion.Calls.{Counted, Earlier, IsScoped, extent}

-- Any error, but no panic.
abbrev pub AnyError : BuildError → Type 0
AnyError e = Unit

dtype-Ends : (d : InputDtype) → Ends Foreseen (input_dtype_to_mlx d)
dtype-Ends InputDtype.f32 = tt
dtype-Ends InputDtype.i32 = tt
dtype-Ends InputDtype.bool = tt
dtype-Ends InputDtype.i8 = tt
dtype-Ends InputDtype.i16 = tt
dtype-Ends InputDtype.i64 = tt
dtype-Ends InputDtype.u8 = tt
dtype-Ends InputDtype.u16 = tt
dtype-Ends InputDtype.u32 = tt
dtype-Ends InputDtype.u64 = tt
dtype-Ends InputDtype.f64 = tt
dtype-Ends (InputDtype.array_f32 d) = tt
dtype-Ends InputDtype.list_f32 = tt

module _ {H B : Type 0} (mlx : Mlx H B) where
  view_input-Ends : (x : (ℕ × B) × InputRef) → Ends Foreseen (view_input mlx x)
  view_input-Ends ((len, buf), input_ref) =
      bind-Ends Foreseen (input_dtype_to_mlx input_ref.dtype) _ (dtype-Ends input_ref.dtype)
        (λ d at. ffi-Ends (mlx.view_metal_buffer buf (len / element_size d ∷ []) d))

  All-views : (xs : List ((ℕ × B) × InputRef)) → All (λ x. Ends Foreseen (view_input mlx x)) xs
  All-views [] = tt
  All-views (x ∷ xs) = (view_input-Ends x, All-views xs)

  -- A handle that may be missing, and one that is there.
  node_handle-any :
      (handles : List H) (args : List ℕ)
      → All (λ idx. Ends AnyError (node_handle mlx handles idx)) args
  node_handle-any handles [] = tt
  node_handle-any handles (idx ∷ args) = (
    elim (Option-cases (get_elem? handles idx)) [
      | inl none_there ↦ rw none_there tt
      | inr (h, there) ↦ rw there tt
    ],
    node_handle-any handles args,
  )

  node_handle-there :
      (handles : List H) (n : ℕ) (args : List ℕ)
      → length handles ≡ n
      → All (λ idx. idx < n) args
      → All (λ idx. Ends Foreseen (node_handle mlx handles idx)) args
  node_handle-there handles n [] size below = tt
  node_handle-there handles n (idx ∷ args) size below =
      let (h, there) = get_elem?-some handles idx (omega (arith, size, below.0)) in
      (rw there tt, node_handle-there handles n args size below.1)

  -- One operation, where its arguments may be missing but are of the right number.
  build_op-Ends :
      (allowed : BuildError → Type 0) (node : OpNode) (handles : List H)
      → ((e : BuildError) → Foreseen e → allowed e)
      → length node.args ≡ (op_spec node.op).n_args
      → All (λ idx. Ends allowed (node_handle mlx handles idx)) node.args
      → Ends allowed (build_op mlx node handles)
  build_op-Ends allowed node handles more count there =
      bind-Ends allowed (collect (node_handle mlx handles) node.args) _
        (collect-Ends allowed (node_handle mlx handles) node.args there)
        (λ args at. Ends-weaken (apply_op mlx node.op node.param handles args) more (
          apply_op-Ends mlx node.op node.param handles args
            (length-collect (node_handle mlx handles) node.args at ∙ count)))

  build_ops-any :
      (ops : List OpNode) (handles : List H)
      → All (λ node. length node.args ≡ (op_spec node.op).n_args) ops
      → Ends AnyError (build_ops mlx ops handles)
  unfolding build_ops
  build_ops-any [] handles counted = tt
  build_ops-any (node ∷ ops) handles counted =
      bind-Ends AnyError (build_op mlx node handles) _
        (build_op-Ends AnyError node handles (λ e h. tt) counted.0
          (node_handle-any handles node.args))
        (λ h at. build_ops-any ops (handles ++ h ∷ []) counted.1)

  build_ops-there :
      (ops : List OpNode) (handles : List H) (n : ℕ)
      → length handles ≡ n
      → All (λ node. length node.args ≡ (op_spec node.op).n_args) ops
      → Earlier n ops
      → Ends Foreseen (build_ops mlx ops handles)
  unfolding build_ops
  build_ops-there [] handles n size counted earlier = tt
  build_ops-there (node ∷ ops) handles n size counted earlier =
      bind-Ends Foreseen (build_op mlx node handles) _
        (build_op-Ends Foreseen node handles (λ e h. h) counted.0
          (node_handle-there handles n node.args size earlier.0))
        (λ h at.
          build_ops-there ops (handles ++ h ∷ []) (suc n)
            (omega (arith, size, length-append {0} handles (h ∷ []))) counted.1 earlier.1)

  length-build_ops :
      (ops : List OpNode) (handles : List H) {built : List H}
      → build_ops mlx ops handles ≡ ok built
      → length built ≡ length handles + length ops
  unfolding build_ops
  length-build_ops [] handles h = rw (← ok-injective h) (omega arith)
  length-build_ops (node ∷ ops) handles h =
      let (handle, one, rest) = >>=-eq-ok (build_op mlx node handles) _ h in
      length-build_ops ops (handles ++ handle ∷ []) rest
      ∙ omega (arith, length-append {0} handles (handle ∷ []))

  -- On a scope whose operations have the right number of arguments no construction panics.
  pub build_graph-any :
      (scope : FusionScope) (handles : List H)
      → Counted scope
      → Ends AnyError (build_graph mlx scope handles)
  build_graph-any scope handles counted =
      bind-Ends AnyError (build_ops mlx scope.ops handles) _
        (build_ops-any scope.ops handles counted)
        (λ built at.
          bind-Ends AnyError (collect (node_handle mlx built) scope.outputs) _
            (collect-Ends AnyError (node_handle mlx built) scope.outputs
              (node_handle-any built scope.outputs))
            (λ outputs at'. tt))

  build_graph-there :
      (scope : FusionScope) (handles : List H)
      → length handles ≡ length scope.inputs
      → IsScoped scope
      → Ends Foreseen (build_graph mlx scope handles)
  build_graph-there scope handles size h =
      bind-Ends Foreseen (build_ops mlx scope.ops handles) _
        (build_ops-there scope.ops handles (length scope.inputs) size h.counted h.earlier)
        (λ built at.
          bind-Ends Foreseen (collect (node_handle mlx built) scope.outputs) _
            (collect-Ends Foreseen (node_handle mlx built) scope.outputs (
              node_handle-there built (extent scope) scope.outputs
                (omega (arith, length-build_ops scope.ops handles at, size)) h.outputs))
            (λ outputs at'. tt))

  length-zip :
      (xs : List (ℕ × B)) (ys : List InputRef)
      → length xs ≡ length ys
      → length (zip mlx xs ys) ≡ length ys
  length-zip [] [] h = refl
  length-zip [] (y ∷ ys) h = absurd (omega (arith, h))
  length-zip (x ∷ xs) [] h = absurd (omega (arith, h))
  length-zip (x ∷ xs) (y ∷ ys) h = ap suc (length-zip xs ys (omega (arith, h)))

  pub buffers-any :
      (scope : FusionScope) (inputs : List (ℕ × B))
      → Counted scope
      → Ends AnyError (from_fusion_scope_buffers mlx scope inputs)
  buffers-any scope inputs counted =
      bind-Ends AnyError (check_inputs mlx scope (length inputs)) _
        (elim (Bool-cases (length inputs == length scope.inputs)) [
          | inl same ↦ rw same tt
          | inr differ ↦ rw differ tt
        ])
        (λ u at.
          bind-Ends AnyError (collect (view_input mlx) (zip mlx inputs scope.inputs)) _
            (Ends-weaken (collect (view_input mlx) (zip mlx inputs scope.inputs)) (λ e h. tt)
              (collect-Ends Foreseen (view_input mlx) (zip mlx inputs scope.inputs)
                (All-views (zip mlx inputs scope.inputs))))
            (λ handles at'. build_graph-any scope handles counted))

  pub buffers-there :
      (scope : FusionScope) (inputs : List (ℕ × B))
      → length inputs ≡ length scope.inputs
      → IsScoped scope
      → Ends Foreseen (from_fusion_scope_buffers mlx scope inputs)
  buffers-there scope inputs size h =
      let same = (nat_beq_iff (length inputs) (length scope.inputs)).1 size in
      rw same (
        bind-Ends Foreseen (collect (view_input mlx) (zip mlx inputs scope.inputs)) _
          (collect-Ends Foreseen (view_input mlx) (zip mlx inputs scope.inputs)
            (All-views (zip mlx inputs scope.inputs)))
          (λ handles at.
            build_graph-there scope handles
              (length-collect (view_input mlx) (zip mlx inputs scope.inputs) at
                ∙ length-zip inputs scope.inputs size)
              h))
