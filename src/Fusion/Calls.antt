-- ===== src/Fusion/Calls.antt =====
-- What the calls of the Python analyzer make of a scope.
use polars_metal.Base.{
  ℕ, suc, ◌+◌, ◌%◌, ◌^◌, ◌<◌, ◌≡◌, sym, inl, inr, subst, String, Option, some, List, [], ◌∷◌, ◌++◌,
  ok, ok-injective, Result-cases, ℤ, Bool-cases, Option-cases, All, All-append, length,
  length-append, ◌==◌, nat_eq, nat_beq_iff, arith,
}
use polars_metal.Fusion.Ops.{OpId, op_spec, op_id_from_str}
use polars_metal.Fusion.Scope.{
  OpNode, FusionScope, empty_scope, push_op_param, py_push_op, Call, do_call, do_calls,
}

-- Every operation has as many arguments as `op_spec` says.
abbrev pub Counted : FusionScope → Type 0
Counted scope = All (λ node. length node.args ≡ (op_spec node.op).n_args) scope.ops

-- A push either raises, or adds an operation with the right number of arguments.
pub record IsPushed (scope : FusionScope) (op_str : String) (args : List ℕ) (param : Option ℤ)
    (out : FusionScope × ℕ) : Type 0 where
  pub op : OpId
  pub known : op_id_from_str op_str ≡ some op
  pub adds : out ≡ push_op_param scope op args param
  pub count : length args % 2 ^ 32 ≡ (op_spec op).n_args

pub py_push_op-IsPushed :
    (scope : FusionScope) (op_str : String) (args : List ℕ) (param : Option ℤ)
    {out : FusionScope × ℕ}
    → py_push_op scope op_str args param ≡ ok out
    → IsPushed scope op_str args param out
unfolding py_push_op
py_push_op-IsPushed scope op_str args param h = elim (Option-cases (op_id_from_str op_str)) [
  | inl unknown ↦ cc (rw unknown at h)
  | inr (op, known) ↦
      let h' = rw known at h in
      elim (Bool-cases (length args % 2 ^ 32 == (op_spec op).n_args)) [
        | inl right ↦ record {
          op = op;
          known = known;
          adds = sym (ok-injective (rw right at h'));
          count = (nat_beq_iff _ _).0 right;
        }
        | inr wrong ↦ cc (rw wrong at h')
      ]
]

-- A call with fewer than 2^32 arguments.
abbrev pub Small : Call → Type 0
Small (Call.add name dtype) = Unit
Small (Call.push op_str args param) = length args < 2 ^ 32
Small (Call.mark idx) = Unit

do_call-Counted :
    (scope : FusionScope) (call : Call) → Small call → Counted scope → Counted (do_call scope call)
unfolding do_call
do_call-Counted scope (Call.add name dtype) small h = h
do_call-Counted scope (Call.mark idx) small h = h
do_call-Counted scope (Call.push op_str args param) small h =
    elim (Result-cases (py_push_op scope op_str args param)) [
      | inl (e, raised) ↦ rw raised h
      | inr (out, done) ↦
          let p = py_push_op-IsPushed scope op_str args param done in
          rw (done, p.adds)
            (All-append _ scope.ops (record { op = p.op; args = args; param = param } ∷ []) h
              (omega (arith, p.count, small), tt))
    ]

pub do_calls-Counted :
    (scope : FusionScope) (calls : List Call)
    → All Small calls
    → Counted scope
    → Counted (do_calls scope calls)
unfolding do_calls
do_calls-Counted scope [] small h = h
do_calls-Counted scope (call ∷ calls) small h =
    do_calls-Counted (do_call scope call) calls small.1 (do_call-Counted scope call small.0 h)

-- The number of nodes.
abbrev pub extent : FusionScope → ℕ
extent scope = length scope.inputs + length scope.ops

-- The operations from node `n` on take only nodes before them.
abbrev pub Earlier : ℕ → List OpNode → Type 0
Earlier n [] = Unit
Earlier n (node ∷ ops) = All (λ idx. idx < n) node.args × Earlier (suc n) ops

pub record IsScoped (scope : FusionScope) : Type 0 where
  pub counted : Counted scope
  pub earlier : Earlier (length scope.inputs) scope.ops
  pub outputs : All (λ idx. idx < extent scope) scope.outputs

-- A call as the analyzer makes it: all inputs first, and then only nodes that are there.
abbrev pub Fits : FusionScope → Call → Type 0
Fits scope (Call.add name dtype) = scope.ops ≡ []
Fits scope (Call.push op_str args param) =
    (length args < 2 ^ 32) × All (λ idx. idx < extent scope) args
Fits scope (Call.mark idx) = idx < extent scope

abbrev pub AllFit : FusionScope → List Call → Type 0
AllFit scope [] = Unit
AllFit scope (call ∷ calls) = Fits scope call × AllFit (do_call scope call) calls

Earlier-append :
    (n : ℕ) (ops : List OpNode) (node : OpNode)
    → Earlier n ops
    → All (λ idx. idx < n + length ops) node.args
    → Earlier n (ops ++ node ∷ [])
Earlier-append n [] node h new = (subst (λ m. All (λ idx. idx < m) node.args) (omega arith) new, tt)
Earlier-append n (op ∷ ops) node h new = (
  h.0,
  Earlier-append (suc n) ops node h.1
      (subst (λ m. All (λ idx. idx < m) node.args) (omega arith) new),
)

All-below : (m n : ℕ) (xs : List ℕ) → m < suc n → All (λ idx. idx < m) xs → All (λ idx. idx < n) xs
All-below m n [] le h = tt
All-below m n (x ∷ xs) le h = (omega (arith, le, h.0), All-below m n xs le h.1)

do_call-IsScoped :
    (scope : FusionScope) (call : Call)
    → Fits scope call
    → IsScoped scope
    → IsScoped (do_call scope call)
unfolding do_call
do_call-IsScoped scope (Call.add name dtype) first h = record {
  counted = h.counted;
  earlier = rw first tt;
  outputs =
      All-below (extent scope) _ scope.outputs
        (omega (
          arith,
          length-append {0} scope.inputs (record { column_name = name; dtype = dtype } ∷ []),
        ))
        h.outputs;
}
do_call-IsScoped scope (Call.mark idx) fits h = record {
  counted = h.counted;
  earlier = h.earlier;
  outputs = All-append _ scope.outputs (idx ∷ []) h.outputs (fits, tt);
}
do_call-IsScoped scope (Call.push op_str args param) fits h =
    elim (Result-cases (py_push_op scope op_str args param)) [
      | inl (e, raised) ↦ rw raised h
      | inr (out, done) ↦
          let p = py_push_op-IsPushed scope op_str args param done in
          let node : OpNode = record { op = p.op; args = args; param = param } in
          rw (done, p.adds)
            (record {
              counted =
                  All-append _ scope.ops (node ∷ []) h.counted (omega (arith, p.count, fits.0), tt);
              earlier = Earlier-append (length scope.inputs) scope.ops node h.earlier fits.1;
              outputs =
                  All-below (extent scope) _ scope.outputs
                    (omega (arith, length-append {0} scope.ops (node ∷ []))) h.outputs;
            })
    ]

pub do_calls-IsScoped :
    (scope : FusionScope) (calls : List Call)
    → AllFit scope calls
    → IsScoped scope
    → IsScoped (do_calls scope calls)
unfolding do_calls
do_calls-IsScoped scope [] fit h = h
do_calls-IsScoped scope (call ∷ calls) fit h =
    do_calls-IsScoped (do_call scope call) calls fit.1 (do_call-IsScoped scope call fit.0 h)

pub empty-IsScoped : IsScoped empty_scope
empty-IsScoped = record { counted = tt; earlier = tt; outputs = tt }
