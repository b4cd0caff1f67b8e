-- ===== src/Fusion/Nodes.antt =====
-- What the handles of a built graph are: the values of the scope's expressions.
use mathlib.Core.Option.{some-injective}
use native.Mathlib.Nat.{add-zero, zero-add}
use polars_metal.Base.{
  ℕ, zero, suc, ◌+◌, ◌≡◌, refl, ap, sym, inl, inr, ◌⊎◌, subst, some, List, [], ◌∷◌, ◌++◌, ok,
  ok-injective, >>=-eq-ok, collect, Option-cases, length, length-append, get_elem?, arith,
}
use polars_metal.Fusion.Scope.{OpNode, FusionScope}
use polars_metal.Fusion.Mlx.{Mlx}
use polars_metal.Fusion.Subgraph.{
  MlxSubgraph, apply_op, node_handle, build_op, build_ops, build_graph, check_inputs, view_input,
  zip, from_fusion_scope_buffers,
}
use polars_metal.Fusion.Meaning.{meaning, Evaluates, AllEvaluate, apply_op-Gives, row_index-Counts}

-- An entry of a list with one more is an old one or the new one.
get_elem?-push :
    {A : Type 0} (xs : List A) (a : A) (i : ℕ) {b : A}
    → get_elem? (xs ++ a ∷ []) i ≡ some b
    → (get_elem? xs i ≡ some b) ⊎ ((i ≡ length xs) × (a ≡ b))
get_elem?-push [] a zero h = inr (refl, some-injective _ _ h)
get_elem?-push [] a (suc i) h = cc
get_elem?-push (x ∷ xs) a zero h = inl h
get_elem?-push (x ∷ xs) a (suc i) h = elim (get_elem?-push xs a i h) [
  | inl old ↦ inl old
  | inr (e, same) ↦ inr (ap suc e, same)
]

module _ {H B : Type 0} (mlx : Mlx H B) (views : List H) (ops : List OpNode) where
  -- Every handle is the value of its node.
  abbrev pub AreValues : List H → Type 0
  AreValues handles = (i : ℕ) (h : H) → get_elem? handles i ≡ some h → Evaluates mlx views ops i h

  collect-AllEvaluate :
      (handles : List H)
      → AreValues handles
      → (idxs : List ℕ) {hs : List H} → collect (node_handle mlx handles) idxs ≡ ok hs
      → AllEvaluate mlx views ops idxs hs
  unfolding collect
  collect-AllEvaluate handles values [] h = rw (← ok-injective h) AllEvaluate.done
  collect-AllEvaluate handles values (idx ∷ idxs) h = elim (Option-cases (get_elem? handles idx)) [
    | inl missing ↦ cc (rw missing at h)
    | inr (a, here) ↦
        let (rest, there, e) =
          >>=-eq-ok (collect (node_handle mlx handles) idxs) _ (rw here at h) in
        rw (← ok-injective e)
          (AllEvaluate.more (values idx a here) (collect-AllEvaluate handles values idxs there))
  ]

  build_op-Evaluates :
      (j : ℕ) (node : OpNode) (handles : List H) {h : H}
      → get_elem? ops j ≡ some node
      → AreValues handles
      → build_op mlx node handles ≡ ok h
      → Evaluates mlx views ops (length views + j) h
  build_op-Evaluates j node handles {h} at values built =
      let (args, read, applied) = >>=-eq-ok (collect (node_handle mlx handles) node.args) _ built in
      elim (apply_op-Gives mlx node.op node.param handles args applied) [
        | inl gives ↦
            Evaluates.applied j node args h at (collect-AllEvaluate handles values node.args read)
              gives
        | inr counted ↦
            let (first, here, counts) =
              row_index-Counts mlx node.param handles args
                (subst (λ op. apply_op mlx op node.param handles args ≡ ok h) counted applied) in
            Evaluates.rows j node first h at (ap meaning counted) (values 0 first here) counts
      ]

  push-AreValues :
      (handles : List H) (h : H)
      → AreValues handles
      → Evaluates mlx views ops (length handles) h
      → AreValues (handles ++ h ∷ [])
  push-AreValues handles h values new i x at = elim (get_elem?-push handles h i at) [
    | inl old ↦ values i x old
    | inr (e, same) ↦ rw (e, ← same) new
  ]

  -- The loop over the operations from the `j`-th on.
  build_ops-AreValues :
      (rest : List OpNode) (j : ℕ) (handles : List H) {built : List H}
      → length handles ≡ length views + j
      → ((k : ℕ) (node : OpNode) → get_elem? rest k ≡ some node → get_elem? ops (j + k) ≡ some node)
      → AreValues handles
      → build_ops mlx rest handles ≡ ok built
      → AreValues built × (length built ≡ length handles + length rest)
  unfolding build_ops
  build_ops-AreValues [] j handles size tail values h =
      rw (← ok-injective h) (values, sym (add-zero (length handles)))
  build_ops-AreValues (node ∷ rest) j handles size tail values h =
      let (handle, one, later) = >>=-eq-ok (build_op mlx node handles) _ h in
      let at : get_elem? ops j ≡ some node =
        subst (λ i. get_elem? ops i ≡ some node) (add-zero j) (tail 0 node refl) in
      let value = build_op-Evaluates j node handles at values one in
      let grown : length (handles ++ handle ∷ []) ≡ length handles + 1 =
        length-append handles (handle ∷ []) in
      let (all_values, count) =
        build_ops-AreValues rest (j + 1) (handles ++ handle ∷ []) (omega (arith, grown, size))
          (λ k other there.
            subst (λ i. get_elem? ops i ≡ some other) (omega arith) (tail (suc k) other there))
          (push-AreValues handles handle values
            (subst (λ i. Evaluates mlx views ops i handle) (sym size) value))
          later in
      (all_values, omega (arith, count, grown))

-- The graph of a scope over arrays for its inputs.
pub record IsEvaluated {H B : Type 0} (mlx : Mlx H B) (scope : FusionScope) (views : List H)
    (sub : MlxSubgraph H) : Type 0 where
  pub count : length sub.handles ≡ length views + length scope.ops
  pub handles : AreValues mlx views scope.ops sub.handles
  pub outputs : AllEvaluate mlx views scope.ops scope.outputs sub.outputs

build_graph-IsEvaluated :
    {H B : Type 0} (mlx : Mlx H B) (scope : FusionScope) (views : List H) {sub : MlxSubgraph H}
    → build_graph mlx scope views ≡ ok sub
    → IsEvaluated mlx scope views sub
build_graph-IsEvaluated mlx scope views h =
    let (handles, built, later) = >>=-eq-ok (build_ops mlx scope.ops views) _ h in
    let (outputs, read, e) = >>=-eq-ok (collect (node_handle mlx handles) scope.outputs) _ later in
    let (values, count) =
      build_ops-AreValues mlx views scope.ops scope.ops 0 views (sym (add-zero (length views)))
        (λ k node at. subst (λ i. get_elem? scope.ops i ≡ some node) (sym (zero-add k)) at)
        (λ i a at. Evaluates.input i a at) built in
    rw (← ok-injective e) (record {
      count = count;
      handles = values;
      outputs = collect-AllEvaluate mlx views scope.ops handles values scope.outputs read;
    })

-- A graph that is built over buffers has a handle for every node of the scope, and each handle is
-- the value of its node: a view of the buffer for an input, and for an operation what the function
-- of MLX that it is named after answers on the values of its arguments, down to the inputs (for
-- `row_index`, the numbers of the rows of the first node). Its outputs are the values of the marked
-- nodes.
pub from_fusion_scope_buffers-IsEvaluated :
    {H B : Type 0} (mlx : Mlx H B) (scope : FusionScope) (inputs : List (ℕ × B))
    {sub : MlxSubgraph H}
    → from_fusion_scope_buffers mlx scope inputs ≡ ok sub
    → (views : List H) × (collect (view_input mlx) (zip mlx inputs scope.inputs) ≡ ok views)
      × IsEvaluated mlx scope views sub
from_fusion_scope_buffers-IsEvaluated mlx scope inputs h =
    let (u, checked, later) = >>=-eq-ok (check_inputs mlx scope (length inputs)) _ h in
    let (views, viewed, built) =
      >>=-eq-ok (collect (view_input mlx) (zip mlx inputs scope.inputs)) _ later in
    (views, viewed, build_graph-IsEvaluated mlx scope views built)
