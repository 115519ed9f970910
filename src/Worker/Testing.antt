-- ===== src/Worker/Testing.antt =====
-- `invoke_handler` of testing.py, the test helper, and the worker's own.
use pilot_langgraph.Prelude.{
  ◌≡◌, refl, ap, sym, ◌∙◌, Bool, true, false, inl, inr, Option, none, some, [], if◌then◌else◌,
  Option-cases,
}
use pilot_langgraph.Json.{Json, arr}
use pilot_langgraph.Server.Types.{
  Context, exc, input_invalid, output_invalid, Outcome, returned, raised, Yields, Body, plain,
  generator, Handler, wants_context, Model, Options, registration,
}
use pilot_langgraph.Server.Introspect.{items_of}
use pilot_langgraph.Server.Invoke.{
  Run, value, stream, failed, unawaited, validate_output, call_body, invoke_handler,
  through_middleware, next, drive_run, drive_chain, drive_body, drive,
}

abbrev pub is_list : Json → Bool
is_list (arr l) = true
is_list _ = false

-- The values of a generator as a list, or the exception that ends it.
abbrev pub collected : Yields → Outcome Json
collected y = elim y.failed [ none ↦ returned (arr (items_of y.values)) | some e ↦ raised e ]

-- The handler's call, for the context that the helper makes if it is given none.
unfoldable pub call : Handler → Json → Context → Outcome Json
call fn p ctx =
    let given : Option Context = if wants_context fn then some ctx else none in
    elim fn.body [ generator g ↦ collected (g p given) | plain f ↦ f p given ]

-- `model.model_validate(result).model_dump()`, not for a list.
unfoldable pub check_output : Option Model → Outcome Json → Outcome Json
check_output output_model (raised e) = raised e
check_output none (returned result) = returned result
check_output (some m) (returned result) =
    if is_list result then returned result else elim (m.validate result) [
      | raised e ↦ raised (output_invalid e)
      | returned made ↦ returned (m.dump made)
    ]

-- `testing.invoke_handler`
unfoldable pub test_handler : Handler → Json → Context → Option Model → Option Model → Outcome Json
unfolding call check_output
test_handler fn p ctx none output_model = check_output output_model (call fn p ctx)
test_handler fn p ctx (some m) output_model = elim (m.validate p) [
  | raised e ↦ raised (input_invalid e)
  | returned handler_p ↦ check_output output_model (call fn handler_p ctx)
]

-- What a run of the worker amounts to.
abbrev pub outcome_of : Run → Outcome Json
outcome_of (value v) = returned v
outcome_of (failed e) = raised e
outcome_of (stream y) = collected y
outcome_of unawaited = raised (exc "TypeError" "Object of type coroutine is not JSON serializable")

-- A handler that is no generator never returns a list, and a generator has no input model.
abbrev pub Fits : Option Model → Body → Type 0
Fits im (generator g) = im ≡ none
Fits im (plain f) =
    (p : Json) (c : Option Context) (r : Json) → f p c ≡ returned r → is_list r ≡ false

check_output-collected :
    (om : Option Model) (y : Yields) → check_output om (collected y) ≡ collected y
unfolding check_output
check_output-collected none y = elim (Option-cases y.failed) [
  | inl e ↦ rw e refl
  | inr (x, e) ↦ rw e refl
]
check_output-collected (some m) y = elim (Option-cases y.failed) [
  | inl e ↦ rw e refl
  | inr (x, e) ↦ rw e refl
]

check_output-validate_output :
    (om : Option Model) (r : Json)
    → is_list r ≡ false
    → check_output om (returned r) ≡ outcome_of (validate_output om r)
unfolding check_output validate_output
check_output-validate_output none r h = refl
check_output-validate_output (some m) r h = go (m.validate r) refl
  where
    go :
        (v : Outcome Json)
        → m.validate r ≡ v
        → check_output (some m) (returned r) ≡ outcome_of (validate_output (some m) r)
    go (raised e) q = rw (check_output, validate_output, q, h) refl
    go (returned made) q = rw (check_output, validate_output, q, h) refl

check_output-plain :
    (om : Option Model) (r : Outcome Json)
    → ((x : Json) → r ≡ returned x → is_list x ≡ false)
    → check_output om r
      ≡ outcome_of (elim r [ raised e ↦ failed e | returned result ↦ validate_output om result ])
unfolding check_output
check_output-plain none (raised e) h = refl
check_output-plain (some m) (raised e) h = refl
check_output-plain om (returned x) h = check_output-validate_output om x (h x refl)

-- Behind the validation of the input.
call-call_body :
    (fn : Handler) (o : Options) (p : Json) (c : Context)
    → Fits o.input_model fn.body
    → check_output o.output_model (call fn p c) ≡ outcome_of (call_body (registration fn o) p c)
unfolding call call_body registration
call-call_body fn o p c = go fn.body refl
  where
    given : Option Context
    given = if wants_context fn then some c else none

    go :
        (b : Body)
        → fn.body ≡ b
        → Fits o.input_model b
        → check_output o.output_model (call fn p c) ≡ outcome_of (call_body (registration fn o) p c)
    go (generator g) e h =
        rw (call, call_body, e) (check_output-collected o.output_model (g p given))
    go (plain f) e h =
        rw (call, call_body, e) (check_output-plain o.output_model (f p given) (h p given))

test_handler-run :
    (fn : Handler) (o : Options) (p : Json) (c : Context)
    → Fits o.input_model fn.body
    → test_handler fn p c o.input_model o.output_model
      ≡ outcome_of (invoke_handler (registration fn o) p c)
unfolding test_handler invoke_handler registration
test_handler-run fn o p c h = go o.input_model refl
  where
    validated :
        (m : Model) (v : Outcome Json)
        → o.input_model ≡ some m
        → m.validate p ≡ v
        → test_handler fn p c o.input_model o.output_model
          ≡ outcome_of (invoke_handler (registration fn o) p c)
    validated m (raised e) q t = rw (test_handler, invoke_handler, q, t) refl
    validated m (returned made) q t =
        rw (test_handler, invoke_handler, q, t) (call-call_body fn o made c h)

    go :
        (v : Option Model)
        → o.input_model ≡ v
        → test_handler fn p c o.input_model o.output_model
          ≡ outcome_of (invoke_handler (registration fn o) p c)
    go none q = rw (test_handler, invoke_handler, q) (call-call_body fn o p c h)
    go (some m) q = validated m (m.validate p) q refl

-- The worker goes by `_invoke_handler`, for generators too where there is no input model.
drive-invoke_handler :
    (fn : Handler) (o : Options) (p : Json) (c : Context)
    → Fits o.input_model fn.body
    → drive (registration fn o) [] p c ≡ drive_run (invoke_handler (registration fn o) p c)
unfolding drive drive_body drive_chain drive_run through_middleware next registration invoke_handler
drive-invoke_handler fn o p c = go fn.body refl
  where
    go :
        (b : Body)
        → fn.body ≡ b
        → Fits o.input_model b
        → drive (registration fn o) [] p c ≡ drive_run (invoke_handler (registration fn o) p c)
    go (plain f) e h = ap (drive_body (registration fn o) p c) e
    go (generator g) e h =
        let ran : invoke_handler (registration fn o) p c
            ≡ stream (g p (if wants_context fn then some c else none)) =
          simp (invoke_handler, h, call_body, e) in
        ap (drive_body (registration fn o) p c) e ∙ ap drive_run (sym ran)

-- What the worker sends for a handler, with no middleware, are the frames of a run, and what the test
-- helper gives is what this run amounts to, with the same models and context: the value, the
-- exception, the validation errors, and for a generator the list of its values or the exception that
-- ends it. This is for handlers that are no generators and return no list, since the helper does not
-- check a list with the output model, and for generators without an input model, since the worker
-- does not apply it to them.
pub test_handler-drive :
    (fn : Handler) (o : Options) (p : Json) (c : Context)
    → Fits o.input_model fn.body
    → (r : Run) × (drive (registration fn o) [] p c ≡ drive_run r)
      × (test_handler fn p c o.input_model o.output_model ≡ outcome_of r)
test_handler-drive fn o p c h = (
  invoke_handler (registration fn o) p c,
  drive-invoke_handler fn o p c h,
  test_handler-run fn o p c h,
)
