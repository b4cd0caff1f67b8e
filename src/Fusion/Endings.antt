-- ===== src/Fusion/Endings.antt =====
-- What the caller of a fused expression sees.
use polars_metal.Base.{
  ℕ, ◌≤◌, ◌≡◌, refl, ap, sym, ◌∙◌, subst, inl, inr, ◌⊎◌, String, List, [], ◌∷◌, ◌++◌, Result, ok,
  err, ok-injective, Result-cases, >>=-eq-ok, Bool-cases, length, drop, ltb, ◌==◌, nat_eq,
  nat_beq_iff, arith,
}
use polars_metal.Fusion.Scope.{empty_scope, Call, do_calls}
use polars_metal.Fusion.Mlx.{MlxDtype, tag, Mlx}
use polars_metal.Fusion.Subgraph.{
  BuildError, Failure, Built, ffi, MlxSubgraph, from_fusion_scope_buffers,
}
use polars_metal.Fusion.Counts.{Ends, bind-Ends, Ends-weaken, ffi-Ends, Foreseen}
use polars_metal.Fusion.Calls.{AllFit, do_calls-IsScoped, empty-IsScoped}
use polars_metal.Fusion.Graph.{AnyError, buffers-there}
use polars_metal.Fusion.Execute.{
  product, has_arm, fail, write_back, write_typed, only_output, eval_checked, eval_into_typed,
}

-- Where the analyzer adds all inputs first and then refers only to nodes that are there, a graph
-- over as many buffers as the scope has inputs is built without a panic, and no node is undefined
-- and no number of arguments or inputs wrong: what can stop it is MLX, an operation without a
-- kernel, or a dtype without a view.
pub do_calls-Foreseen :
    {H B : Type 0} (mlx : Mlx H B) (calls : List Call) (inputs : List (ℕ × B))
    → AllFit empty_scope calls
    → length inputs ≡ length (do_calls empty_scope calls).inputs
    → Ends Foreseen (from_fusion_scope_buffers mlx (do_calls empty_scope calls) inputs)
do_calls-Foreseen mlx calls inputs fit size =
    buffers-there mlx (do_calls empty_scope calls) inputs size
      (do_calls-IsScoped empty_scope calls fit empty-IsScoped)

module _ {H B : Type 0} (mlx : Mlx H B) where
  -- The values of an array are as many as its shape says.
  abbrev pub Sized : Type 0
  Sized =
      (d : MlxDtype) (h : H) (data_of : List ℕ)
      → mlx.to_vec d h ≡ ok data_of
      → length data_of ≡ product (mlx.shape h)

  -- The whole output, of the declared dtype, at the start of the array.
  pub record IsWritten (sub : MlxSubgraph H) (dst : List ℕ) (out_dtype : MlxDtype) (n : ℕ)
      (after : List ℕ) : Type 0 where
    pub output : H
    pub only : sub.outputs ≡ output ∷ []
    pub size : product (mlx.shape output) ≡ n
    pub fits : n ≤ length dst
    pub got : MlxDtype
    pub declared : (mlx.dtype output ≡ ok got) × (tag got ≡ tag out_dtype)
    pub written : List ℕ
    pub whole : after ≡ written ++ drop n dst
    pub values : (n ≡ 0) ⊎ (mlx.to_vec out_dtype output ≡ ok written)
    pub count : length written ≡ n

  -- An error other than a panic leaves the array as it was.
  abbrev pub IsDone : MlxSubgraph H → List ℕ → MlxDtype → Built ℕ × List ℕ → Type 0
  IsDone sub dst out_dtype (ok n, after) = IsWritten sub dst out_dtype n after
  IsDone sub dst out_dtype (err (Failure.error e), after) = after ≡ dst
  IsDone sub dst out_dtype (err Failure.panic, after) = ⊥

  -- What the checks have found.
  record IsChecked (sub : MlxSubgraph H) (cap : ℕ) (out_dtype : MlxDtype) (h : H) (n : ℕ)
      : Type 0 where
    pub only : sub.outputs ≡ h ∷ []
    pub size : product (mlx.shape h) ≡ n
    pub fits : n ≤ cap
    pub got : MlxDtype
    pub declared : (mlx.dtype h ≡ ok got) × (tag got ≡ tag out_dtype)

  only_output-ok : (outputs : List H) {h : H} → only_output mlx outputs ≡ ok h → outputs ≡ h ∷ []
  only_output-ok [] e = cc
  only_output-ok (x ∷ []) e = ap (λ y. y ∷ []) (ok-injective e)
  only_output-ok (x ∷ y ∷ outputs) e = cc

  ffi-ok : {A : Type 0} (r : Result String A) {a : A} → ffi r ≡ ok a → r ≡ ok a
  ffi-ok (ok b) e = ap ok (ok-injective e)
  ffi-ok (err text) e = cc

  eval_checked-IsChecked :
      (sub : MlxSubgraph H) (cap : ℕ) (out_dtype : MlxDtype) {out : H × ℕ}
      → eval_checked mlx sub cap out_dtype ≡ ok out
      → IsChecked sub cap out_dtype out.0 out.1
  unfolding eval_checked
  eval_checked-IsChecked sub cap out_dtype e =
      let (h, one, e1) = >>=-eq-ok (only_output mlx sub.outputs) _ e in
      let (u, evaluated, e2) = >>=-eq-ok (ffi (mlx.mlx_array_eval sub.outputs)) _ e1 in
      let (got, typed, e3) = >>=-eq-ok (ffi (mlx.dtype h)) _ e2 in
      elim (Bool-cases (tag got == tag out_dtype)) [
        | inr differ ↦ cc (rw differ at e3)
        | inl same ↦ elim (Bool-cases (ltb cap (product (mlx.shape h)))) [
          | inl large ↦ cc (rw (same, large) at e3)
          | inr enough ↦ rw (← ok-injective (rw (same, enough) at e3)) (record {
            only = only_output-ok sub.outputs one;
            size = refl;
            fits = ground (arith, enough);
            got = got;
            declared = (ffi-ok (mlx.dtype h) typed, (nat_beq_iff _ _).0 same);
          })
        ]
      ]

  eval_checked-quiet :
      (sub : MlxSubgraph H) (cap : ℕ) (out_dtype : MlxDtype)
      → Ends AnyError (eval_checked mlx sub cap out_dtype)
  unfolding eval_checked
  eval_checked-quiet sub cap out_dtype =
      bind-Ends AnyError (only_output mlx sub.outputs) _ (one sub.outputs) (λ h at.
        bind-Ends AnyError (ffi (mlx.mlx_array_eval sub.outputs)) _
          (quiet (mlx.mlx_array_eval sub.outputs))
          (λ u at'. bind-Ends AnyError (ffi (mlx.dtype h)) _ (quiet (mlx.dtype h)) (λ got at''.
            elim (Bool-cases (tag got == tag out_dtype)) [
              | inr differ ↦ rw differ tt
              | inl same ↦ elim (Bool-cases (ltb cap (product (mlx.shape h)))) [
                | inl large ↦ rw (same, large) tt
                | inr enough ↦ rw (same, enough) tt
              ]
            ])))
    where
      one : (outputs : List H) → Ends AnyError (only_output mlx outputs)
      one [] = tt
      one (h ∷ []) = tt
      one (h ∷ h' ∷ outputs) = tt

      quiet : {A : Type 0} (r : Result String A) → Ends AnyError (ffi r)
      quiet r = Ends-weaken (ffi r) (λ e h. tt) (ffi-Ends r)

  reach :
      (sub : MlxSubgraph H) (dst : List ℕ) (out_dtype : MlxDtype) {out out' : Built ℕ × List ℕ}
      → out ≡ out'
      → IsDone sub dst out_dtype out'
      → IsDone sub dst out_dtype out
  reach sub dst out_dtype e h = subst (IsDone sub dst out_dtype) (sym e) h

  written-IsDone :
      (sub : MlxSubgraph H) (dst : List ℕ) (out_dtype : MlxDtype) (h : H) (n : ℕ)
      → Sized
      → IsChecked sub (length dst) out_dtype h n
      → IsDone sub dst out_dtype (write_back mlx h n dst out_dtype)
  unfolding write_back
  written-IsDone sub dst out_dtype h n sized c = elim (Result-cases (mlx.to_vec out_dtype h)) [
    | inl (text, failed) ↦
        let e : write_back mlx h n dst out_dtype ≡ (fail (BuildError.mlx_error text), dst) =
          rw (failed, write_back) refl in
        reach sub dst out_dtype e refl
    | inr (data_of, read) ↦
        let count : length data_of ≡ n = sized out_dtype h data_of read ∙ c.size in
        let e : write_back mlx h n dst out_dtype ≡ (ok n, data_of ++ drop n dst) =
          rw (read, (nat_beq_iff (length data_of) n).1 count, write_back) refl in
        reach sub dst out_dtype e (record {
          output = h;
          only = c.only;
          size = c.size;
          fits = c.fits;
          got = c.got;
          declared = c.declared;
          written = data_of;
          whole = refl;
          values = inr read;
          count = count;
        })
  ]

  typed-IsDone :
      (sub : MlxSubgraph H) (dst : List ℕ) (out_dtype : MlxDtype) (h : H) (n : ℕ)
      → Sized
      → IsChecked sub (length dst) out_dtype h n
      → IsDone sub dst out_dtype (write_typed mlx h n dst out_dtype)
  typed-IsDone sub dst out_dtype h n sized c = elim (Bool-cases (n == 0)) [
    | inl nothing ↦
        let zeroth : n ≡ 0 = (nat_beq_iff n 0).0 nothing in
        let e : write_typed mlx h n dst out_dtype ≡ (ok 0, dst) = rw nothing refl in
        reach sub dst out_dtype e (record {
          output = h;
          only = c.only;
          size = c.size ∙ zeroth;
          fits = omega arith;
          got = c.got;
          declared = c.declared;
          written = [];
          whole = refl;
          values = inl refl;
          count = refl;
        })
    | inr something ↦ elim (Bool-cases (has_arm out_dtype)) [
      | inl arm ↦
          let e : write_typed mlx h n dst out_dtype ≡ write_back mlx h n dst out_dtype =
            rw (something, arm) refl in
          reach sub dst out_dtype e (written-IsDone sub dst out_dtype h n sized c)
      | inr bare ↦
          let e : write_typed mlx h n dst out_dtype
              ≡ (fail BuildError.unsupported_input_dtype, dst) =
            rw (something, bare) refl in
          reach sub dst out_dtype e refl
    ]
  ]

  stopped :
      (sub : MlxSubgraph H) (dst : List ℕ) (out_dtype : MlxDtype) (e : Failure)
      → Ends {A = H × ℕ} AnyError (err e)
      → IsDone sub dst out_dtype (err e, dst)
  stopped sub dst out_dtype (Failure.error e) h = refl
  stopped sub dst out_dtype Failure.panic h = h

  pub eval_into_typed-IsDone :
      (sub : MlxSubgraph H) (dst : List ℕ) (out_dtype : MlxDtype)
      → Sized
      → IsDone sub dst out_dtype (eval_into_typed mlx sub dst out_dtype)
  unfolding eval_into_typed
  eval_into_typed-IsDone sub dst out_dtype sized =
      elim (Result-cases (eval_checked mlx sub (length dst) out_dtype)) [
        | inl (e, failed) ↦
            let at : eval_into_typed mlx sub dst out_dtype ≡ (err e, dst) =
              rw (failed, eval_into_typed) refl in
            let quiet = eval_checked-quiet sub (length dst) out_dtype in
            reach sub dst out_dtype at
              (stopped sub dst out_dtype e (subst (Ends AnyError) failed quiet))
        | inr ((h, n), checked) ↦
            let c = eval_checked-IsChecked sub (length dst) out_dtype checked in
            let at : eval_into_typed mlx sub dst out_dtype ≡ write_typed mlx h n dst out_dtype =
              rw (checked, eval_into_typed) refl in
            reach sub dst out_dtype at (typed-IsDone sub dst out_dtype h n sized c)
      ]
