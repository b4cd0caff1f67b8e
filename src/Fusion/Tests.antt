-- ===== src/Fusion/Tests.antt =====
-- A scope of two inputs on an MLX that knows lists of numbers.
use polars_metal.Base.{
  ℕ, zero, suc, ◌+◌, ◌≡◌, ◌↔◌, inr, refl, ap, sym, ◌∙◌, String, true, none, some, List, [], ◌∷◌,
  Result, ok, ok-injective, collect, length, arith,
}
use polars_metal.Fusion.Ops.{OpId, op_id_from_str}
use polars_metal.Fusion.Scope.{
  InputDtype, push_op_param, py_push_op, FusionScope, empty_scope, Call, do_calls,
}
use polars_metal.Fusion.Indices.{node_at, py_push_op-node_at}
use polars_metal.Fusion.Density.{RouteDecision, density_routes_gpu}
use polars_metal.Fusion.Mlx.{MlxDtype, Mlx}
use polars_metal.Fusion.Subgraph.{
  MlxSubgraph, build_ops, view_input, zip, from_fusion_scope_buffers,
}
use polars_metal.Fusion.Counts.{Ends, Foreseen}
use polars_metal.Fusion.Nodes.{IsEvaluated, from_fusion_scope_buffers-IsEvaluated}
use polars_metal.Fusion.Routing.{IsDense, density_routes_gpu-IsDense}
use polars_metal.Fusion.Execute.{execute_fused_expr}
use polars_metal.Fusion.Endings.{Sized, do_calls-Foreseen}
use polars_metal.Fusion.Outcome.{IsOutcome, execute_fused_expr-IsOutcome}

abbrev sums : List ℕ → List ℕ → List ℕ
sums [] ys = []
sums (x ∷ xs) [] = []
sums (x ∷ xs) (y ∷ ys) = (x + y) ∷ sums xs ys

abbrev count_from : ℕ → ℕ → List ℕ
count_from i zero = []
count_from i (suc n) = i ∷ count_from (suc i) n

-- It adds; other functions give back an argument.
abbrev lists : Mlx (List ℕ) (List ℕ)
lists = record {
  unary = λ f a. ok a;
  binary = λ f a b. ok (sums a b);
  scan = λ f a axis. ok a;
  mlx_where = λ c t f. ok t;
  mlx_cast = λ a d. ok a;
  mlx_shift = λ a w. ok a;
  mlx_iota_f32 = λ n. ok (count_from 0 n);
  mlx_take = λ a i. ok a;
  shape = λ a. length a ∷ [];
  dtype = λ a. ok MlxDtype.f32;
  mlx_array_eval = λ outputs. ok tt;
  to_vec = λ d a. ok a;
  from_f32_slice = λ data_of. ok data_of;
  view_metal_buffer = λ buf shape d. ok buf;
}

lists_sized : Sized lists
lists_sized d h data_of e = ap length (sym (ok-injective e)) ∙ omega arith

-- sin(x + y)
abbrev calls : List Call
calls =
    Call.add "x" InputDtype.f32
    ∷ Call.add "y" InputDtype.f32
    ∷ Call.push "Add" (0 ∷ 1 ∷ []) none
    ∷ Call.push "Sin" (2 ∷ []) none
    ∷ Call.mark 3
    ∷ []

abbrev buffers : List (ℕ × List ℕ)
buffers = (12, 1 ∷ 2 ∷ 3 ∷ []) ∷ (12, 10 ∷ 20 ∷ 30 ∷ []) ∷ []

abbrev memory : ℕ → ℕ → Result String (List ℕ)
memory ptr bytes = ok (ptr ∷ (ptr + 1) ∷ (ptr + 2) ∷ [])

written :
    execute_fused_expr lists memory true
      (do_calls empty_scope calls)
      ((100, 3, 0) ∷ (200, 3, 0) ∷ [])
      (7 ∷ 7 ∷ 7 ∷ 7 ∷ [])
      0
    ≡ (ok 3, 300 ∷ 302 ∷ 304 ∷ 7 ∷ [])
unfolding execute_fused_expr do_calls
written = refl

execute_fused_expr-IsOutcome_example :
    IsOutcome lists memory
      (do_calls empty_scope calls)
      ((100, 3, 0) ∷ (200, 3, 0) ∷ [])
      (7 ∷ 7 ∷ 7 ∷ 7 ∷ [])
      0
      (execute_fused_expr lists memory true
        (do_calls empty_scope calls)
        ((100, 3, 0) ∷ (200, 3, 0) ∷ [])
        (7 ∷ 7 ∷ 7 ∷ 7 ∷ [])
        0)
execute_fused_expr-IsOutcome_example =
    execute_fused_expr-IsOutcome lists memory true calls ((100, 3, 0) ∷ (200, 3, 0) ∷ [])
      (7 ∷ 7 ∷ 7 ∷ 7 ∷ []) 0 (tt, (tt, (omega arith, (omega arith, (tt, tt))))) lists_sized

do_calls-Foreseen_example :
    Ends Foreseen (from_fusion_scope_buffers lists (do_calls empty_scope calls) buffers)
unfolding do_calls
do_calls-Foreseen_example =
    do_calls-Foreseen lists calls buffers
      (
        refl,
        (
          refl,
          (
            (omega arith, (omega arith, (omega arith, tt))),
            ((omega arith, (omega arith, tt)), (omega arith, tt)),
          ),
        ),
      )
      refl

abbrev graph : MlxSubgraph (List ℕ)
graph = record {
  handles = (1 ∷ 2 ∷ 3 ∷ []) ∷ (10 ∷ 20 ∷ 30 ∷ []) ∷ (11 ∷ 22 ∷ 33 ∷ []) ∷ (11 ∷ 22 ∷ 33 ∷ []) ∷ [];
  outputs = (11 ∷ 22 ∷ 33 ∷ []) ∷ [];
}

built : from_fusion_scope_buffers lists (do_calls empty_scope calls) buffers ≡ ok graph
unfolding do_calls collect build_ops
built = refl

from_fusion_scope_buffers-IsEvaluated_example :
    (views : List (List ℕ)) × (collect
        (view_input lists)
        (zip lists buffers (do_calls empty_scope calls).inputs)
      ≡ ok views)
    × IsEvaluated lists (do_calls empty_scope calls) views graph
from_fusion_scope_buffers-IsEvaluated_example =
    from_fusion_scope_buffers-IsEvaluated lists (do_calls empty_scope calls) buffers built

-- A sine for each of ten million rows.
abbrev sines : FusionScope
sines = record {
  inputs = record { column_name = "x"; dtype = InputDtype.f32 } ∷ [];
  ops = record { op = OpId.sin; args = 0 ∷ []; param = none } ∷ [];
  outputs = 1 ∷ [];
}

density_routes_gpu-IsDense_example :
    (density_routes_gpu sines 10000000 ≡ RouteDecision.gpu) ↔ IsDense sines 10000000
density_routes_gpu-IsDense_example = density_routes_gpu-IsDense sines 10000000 (omega arith)

goes : density_routes_gpu sines 10000000 ≡ RouteDecision.gpu
unfolding density_routes_gpu
goes = refl

abbrev two_inputs : FusionScope
two_inputs = record {
  inputs =
      record { column_name = "x"; dtype = InputDtype.f32 }
      ∷ record { column_name = "y"; dtype = InputDtype.f32 }
      ∷ [];
  ops = [];
  outputs = [];
}

py_push_op-node_at_example :
    (op : OpId) × (op_id_from_str "Add" ≡ some op)
    × (node_at
          (do_calls (push_op_param two_inputs OpId.add (0 ∷ 1 ∷ []) none).0 (Call.mark 2 ∷ []))
          2
        ≡ some (inr (record { op = op; args = 0 ∷ 1 ∷ []; param = none })))
unfolding py_push_op
py_push_op-node_at_example =
    py_push_op-node_at two_inputs "Add" (0 ∷ 1 ∷ []) none (Call.mark 2 ∷ [])
      {out = push_op_param two_inputs OpId.add (0 ∷ 1 ∷ []) none} (omega arith) refl
      (omega arith, tt)
