-- ===== src/Fusion/Outcome.antt =====
-- `execute_fused_expr` as a whole, on a scope that the analyzer has built.
use polars_metal.Base.{
  ℕ, ◌≡◌, refl, sym, subst, inl, inr, String, Bool, true, false, List, [], ◌∷◌, Result, ok, err,
  Result-cases, ◌>>=◌, collect, All,
}
use polars_metal.Fusion.Scope.{FusionScope, empty_scope, Call, do_calls}
use polars_metal.Fusion.Mlx.{MlxDtype, from_tag, Mlx}
use polars_metal.Fusion.Subgraph.{Failure, Built, MlxSubgraph, from_fusion_scope_buffers}
use polars_metal.Fusion.Counts.{Ends}
use polars_metal.Fusion.Calls.{Counted, Small, do_calls-Counted}
use polars_metal.Fusion.Graph.{AnyError, buffers-any}
use polars_metal.Fusion.Execute.{
  eval_into_typed, Raised, raise, raise_text, stage_input, prepare, execute_fused_expr,
}
use polars_metal.Fusion.Endings.{Sized, IsWritten, IsDone, eval_into_typed-IsDone}

-- An exception that Python knows, and not a panic.
abbrev pub IsQuiet : {A : Type 0} → Result Raised A → Type 0
IsQuiet (ok a) = Unit
IsQuiet (err Raised.value_error) = Unit
IsQuiet (err Raised.runtime_error) = Unit
IsQuiet (err Raised.panic_exception) = ⊥

bind-IsQuiet :
    {A C : Type 0} (m : Result Raised A) (rest : A → Result Raised C)
    → IsQuiet m
    → ((a : A) → m ≡ ok a → IsQuiet (rest a))
    → IsQuiet (m >>= rest)
bind-IsQuiet (ok a) rest first then_rest = then_rest a refl
bind-IsQuiet (err Raised.value_error) rest first then_rest = tt
bind-IsQuiet (err Raised.runtime_error) rest first then_rest = tt
bind-IsQuiet (err Raised.panic_exception) rest first then_rest = first

collect-IsQuiet :
    {A C : Type 0} (f : A → Result Raised C) (xs : List A)
    → ((x : A) → IsQuiet (f x))
    → IsQuiet (collect f xs)
unfolding collect
collect-IsQuiet f [] h = tt
collect-IsQuiet f (x ∷ xs) h =
    bind-IsQuiet (f x) _ (h x)
      (λ y at. bind-IsQuiet (collect f xs) _ (collect-IsQuiet f xs h) (λ ys at'. tt))

value-IsQuiet : {A : Type 0} (r : Result String A) → IsQuiet (raise_text Raised.value_error r)
value-IsQuiet (ok a) = tt
value-IsQuiet (err e) = tt

runtime-IsQuiet : {A : Type 0} (r : Result String A) → IsQuiet (raise_text Raised.runtime_error r)
runtime-IsQuiet (ok a) = tt
runtime-IsQuiet (err e) = tt

raise-IsQuiet : {A : Type 0} (r : Built A) → Ends AnyError r → IsQuiet (raise Raised.value_error r)
raise-IsQuiet (ok a) h = tt
raise-IsQuiet (err (Failure.error e)) h = tt
raise-IsQuiet (err Failure.panic) h = h

module _ {H B : Type 0} (mlx : Mlx H B) (borrow : ℕ → ℕ → Result String B) where
  stage_input-IsQuiet : (input : ℕ × ℕ × ℕ) → IsQuiet (stage_input mlx borrow input)
  stage_input-IsQuiet (ptr, n, dtype_tag) =
      bind-IsQuiet (raise_text Raised.value_error (from_tag dtype_tag)) _
        (value-IsQuiet (from_tag dtype_tag))
        (λ dtype at.
          bind-IsQuiet (raise_text Raised.runtime_error (borrow ptr _)) _
            (runtime-IsQuiet (borrow ptr _)) (λ buf at'. tt))

  prepare-IsQuiet :
      (scope : FusionScope) (inputs : List (ℕ × ℕ × ℕ)) (out_tag : ℕ)
      → Counted scope
      → IsQuiet (prepare mlx borrow scope inputs out_tag)
  prepare-IsQuiet scope inputs out_tag counted =
      bind-IsQuiet (collect (stage_input mlx borrow) inputs) _
        (collect-IsQuiet (stage_input mlx borrow) inputs stage_input-IsQuiet)
        (λ buffers at.
          bind-IsQuiet (raise Raised.value_error (from_fusion_scope_buffers mlx scope buffers)) _
            (raise-IsQuiet (from_fusion_scope_buffers mlx scope buffers)
              (buffers-any mlx scope buffers counted))
            (λ sub at'.
              bind-IsQuiet (raise_text Raised.value_error (from_tag out_tag)) _
                (value-IsQuiet (from_tag out_tag)) (λ d at''. tt)))

  -- A result is the whole output of the graph; an exception leaves the caller's array as it was.
  abbrev pub IsOutcome :
      FusionScope → List (ℕ × ℕ × ℕ) → List ℕ → ℕ → Result Raised ℕ × List ℕ → Type 0
  IsOutcome scope inputs dst out_tag (ok n, after) =
      (sub : MlxSubgraph H) × (out_dtype : MlxDtype) × (prepare mlx borrow scope inputs out_tag
        ≡ ok (sub, out_dtype))
      × IsWritten mlx sub dst out_dtype n after
  IsOutcome scope inputs dst out_tag (err e, after) = IsQuiet {A = ℕ} (err e) × (after ≡ dst)

  done-IsOutcome :
      (scope : FusionScope) (inputs : List (ℕ × ℕ × ℕ)) (dst : List ℕ) (out_tag : ℕ)
      (sub : MlxSubgraph H) (out_dtype : MlxDtype)
      → prepare mlx borrow scope inputs out_tag ≡ ok (sub, out_dtype)
      → (out : Built ℕ × List ℕ) → IsDone mlx sub dst out_dtype out
      → IsOutcome scope inputs dst out_tag (raise Raised.runtime_error out.0, out.1)
  done-IsOutcome scope inputs dst out_tag sub out_dtype prepared (ok n, after) h =
      (sub, out_dtype, prepared, h)
  done-IsOutcome scope inputs dst out_tag sub out_dtype prepared (err (Failure.error e), after) h =
      (tt, h)
  done-IsOutcome scope inputs dst out_tag sub out_dtype prepared (err Failure.panic, after) h =
      absurd h

  Counted-IsOutcome :
      (device : Bool) (scope : FusionScope) (inputs : List (ℕ × ℕ × ℕ)) (dst : List ℕ) (out_tag : ℕ)
      → Counted scope
      → Sized mlx
      → IsOutcome scope inputs dst out_tag
          (execute_fused_expr mlx borrow device scope inputs dst out_tag)
  unfolding execute_fused_expr
  Counted-IsOutcome false scope inputs dst out_tag counted sized = (tt, refl)
  Counted-IsOutcome true scope inputs dst out_tag counted sized =
      elim (Result-cases (prepare mlx borrow scope inputs out_tag)) [
        | inl (e, failed) ↦
            let at : execute_fused_expr mlx borrow true scope inputs dst out_tag ≡ (err e, dst) =
              rw (failed, execute_fused_expr) refl in
            let quiet = subst IsQuiet failed (prepare-IsQuiet scope inputs out_tag counted) in
            subst (IsOutcome scope inputs dst out_tag) (sym at) (quiet, refl)
        | inr ((sub, out_dtype), prepared) ↦
            let out = eval_into_typed mlx sub dst out_dtype in
            let at : execute_fused_expr mlx borrow true scope inputs dst out_tag
                ≡ (raise Raised.runtime_error out.0, out.1) =
              rw (prepared, execute_fused_expr) refl in
            subst (IsOutcome scope inputs dst out_tag) (sym at) (
              done-IsOutcome scope inputs dst out_tag sub out_dtype prepared out
                (eval_into_typed-IsDone mlx sub dst out_dtype sized))
      ]

-- Whatever calls Python has made on a scope, each with fewer than 2^32 arguments, and whatever inputs
-- it passes, `execute_fused_expr` ends without a panic where MLX hands back as many values as an
-- array's shape says. It returns `n` only after the `n` values of the graph's one output, whose dtype
-- is the declared one, have been written to the first `n` elements of the array and to no others; and
-- where it raises, the array is as it was.
pub execute_fused_expr-IsOutcome :
    {H B : Type 0} (mlx : Mlx H B) (borrow : ℕ → ℕ → Result String B) (device : Bool)
    (calls : List Call) (inputs : List (ℕ × ℕ × ℕ)) (dst : List ℕ) (out_tag : ℕ)
    → All Small calls
    → Sized mlx
    → IsOutcome mlx borrow
        (do_calls empty_scope calls)
        inputs
        dst
        out_tag
        (execute_fused_expr mlx borrow device (do_calls empty_scope calls) inputs dst out_tag)
execute_fused_expr-IsOutcome mlx borrow device calls inputs dst out_tag small sized =
    Counted-IsOutcome mlx borrow device (do_calls empty_scope calls) inputs dst out_tag
      (do_calls-Counted empty_scope calls small tt) sized
