-- ===== src/Tests/Process.antt =====
-- The theorems on configuration, logging, the start of the process and the load generator.
use pr_reviewer_service.Prelude.{
  ℕ, suc, ◌<◌, ◌≡◌, refl, ap, String, Bool, true, false, Option, none, some, List, [], ◌∷◌, ◌++◌,
  ◌⊎◌, inl, inr, length, arith, leb, if◌then◌else◌, if◌then◌else◌, pos,
}
use pr_reviewer_service.Config.{
  Config, FileRead, contents, loaded, load, normalize, zero_config, read_yaml,
}
use pr_reviewer_service.Config.Laws.{LoadedFrom, load-LoadedFrom}
use pr_reviewer_service.Logging.{
  Context, background, value, ctx_or, plain, error, wrap_error, error_ctx, Attribute, text,
  handle_record,
}
use pr_reviewer_service.Logging.Laws.{
  Note, request_id, status, notes, behind_all, told, error_ctx-wrap_error, told-handle_record,
}
use pr_reviewer_service.App.Connect.{PoolConfig, not_connected, attempt, connect_with_retry}
use pr_reviewer_service.App.Connect.Laws.{
  first_or, tried, stopped, error_of, connect_with_retry-first,
}
use pr_reviewer_service.App.Start.{Outside, migrated, ctx_done, main}
use pr_reviewer_service.App.Start.Laws.{Ends, main-Ends}
use pr_reviewer_service.Load.{
  Decoded, Codec, result, eof, bad, Disk, save_results, collect, run_load_test, render_report,
  read_results,
}
use pr_reviewer_service.Load.Laws.{
  Ended, read_results-ends, KeepsFrom, collect-KeepsFrom, run_load_test-render_report,
}

abbrev a_file : String → FileRead
a_file path = contents "http:"

abbrev unmarshal : String → Config → Option Config
unmarshal yaml c = some c

abbrev parse_env : Config → Option Config
parse_env c = some c

loads : load "" a_file unmarshal parse_env ≡ loaded (normalize zero_config)
unfolding load read_yaml
loads = refl

load-LoadedFrom_example : LoadedFrom (contents "http:") unmarshal parse_env (normalize zero_config)
load-LoadedFrom_example =
    load-LoadedFrom "" a_file unmarshal parse_env (normalize zero_config) loads

abbrev some_notes : List Note
some_notes = request_id "7d0c" ∷ status 201 ∷ request_id "9e1f" ∷ []

abbrev joined : String → String → String
joined s t = t

abbrev noted_ctx : Context
noted_ctx = notes background some_notes

error_ctx-wrap_error_example :
    (value (
        error_ctx background (behind_all ("reassign" ∷ []) (wrap_error noted_ctx (plain "failed"))))
      ≡ some (ctx_or (value noted_ctx)))
    × (error joined (behind_all ("reassign" ∷ []) (wrap_error noted_ctx (plain "failed")))
        ≡ error joined (behind_all ("reassign" ∷ []) (plain "failed")))
error_ctx-wrap_error_example =
    error_ctx-wrap_error joined noted_ctx background ("reassign" ∷ []) (plain "failed")

told-handle_record_example :
    (new : List (String × Attribute)) × (handle_record noted_ctx
        (some "service.go:1")
        (("error", text "gone") ∷ [])
      ≡ ("error", text "gone") ∷ new)
    × (told new ≡ ctx_or (value noted_ctx))
told-handle_record_example =
    told-handle_record noted_ctx (some "service.go:1") (("error", text "gone") ∷ [])

-- A pool that is there at the third attempt.
abbrev parse_config : ℕ → String → String ⊎ PoolConfig
parse_config n url = inr (record {
  max_conns = pos 4;
  min_conns = pos 0;
  max_conn_idle_time = pos 0;
  max_conn_lifetime = pos 0;
})

abbrev third_time : ℕ → PoolConfig → String ⊎ ℕ
third_time n p = if leb 2 n then inr n else inl "refused"

abbrev never_done : ℕ → Option String
never_done n = none

connect_with_retry-first_example :
    (connect_with_retry zero_config parse_config third_time never_done).0
    ≡ first_or
        (not_connected (error_of (attempt zero_config parse_config third_time never_done 3)))
        (tried (attempt zero_config parse_config third_time never_done 0)
          ∷ stopped none
          ∷ tried (attempt zero_config parse_config third_time never_done 1)
          ∷ stopped none
          ∷ tried (attempt zero_config parse_config third_time never_done 2)
          ∷ stopped none
          ∷ tried (attempt zero_config parse_config third_time never_done 3)
          ∷ [])
connect_with_retry-first_example =
    connect_with_retry-first zero_config parse_config third_time never_done

abbrev machine : Outside String ℕ
machine = record {
  migrate_new = λ source url. none;
  up = migrated;
  parse_config = parse_config;
  new_with_config = third_time;
  done = never_done;
  read_spec = λ path. none;
  event = ctx_done;
  shutdown = λ t. some "deadline";
  to_lower = λ s. s;
  mkdir_all = λ path. true;
  open_file = λ path. true;
}

main-Ends_example :
    Ends machine (normalize zero_config) (main machine (some (normalize zero_config)))
main-Ends_example = main-Ends machine (normalize zero_config)

-- Results that are their status, each a byte of the file.
-- A stream that begins with a byte of its own: the encoder and the decoder each know whether they are
-- past it.
abbrev as_bytes : Bool → ℕ → List ℕ × Bool
as_bytes false n = (0 ∷ n ∷ [], true)
as_bytes true n = (n ∷ [], true)

abbrev as_result : Bool → List ℕ → Decoded ℕ Bool
as_result past [] = eof
as_result true (n ∷ rest) = result n rest true
as_result false (h ∷ []) = bad
as_result false (h ∷ n ∷ rest) = result n rest true

abbrev stream : Codec ℕ Bool Bool
stream = record { new_encoder = false; encode = as_bytes; new_decoder = false; decode = as_result }

abbrev same_code : ℕ → ℕ
same_code n = n

length_of : Decoded ℕ Bool → ℕ
length_of (result r rest past) = length rest
length_of eof = 0
length_of bad = 0

as_result-shrinks :
    (past : Bool) (bytes : List ℕ) (r : ℕ) (rest : List ℕ) (past' : Bool)
    → as_result past bytes ≡ result r rest past'
    → length rest < length bytes
unfolding length_of
as_result-shrinks true [] r rest past' h = absurd (ground (arith, h))
as_result-shrinks false [] r rest past' h = absurd (ground (arith, h))
as_result-shrinks true (n ∷ bytes) r rest past' h = omega (arith, ap length_of h)
as_result-shrinks false (n ∷ []) r rest past' h = absurd (ground (arith, h))
as_result-shrinks false (n ∷ m ∷ bytes) r rest past' h = omega (arith, ap length_of h)

as_result-as_bytes :
    (x y : Bool)
    → x ≡ y
    → (r : ℕ) (rest : List ℕ)
    → (y' : Bool) × (as_result y ((as_bytes x r).0 ++ rest) ≡ result r rest y')
      × ((as_bytes x r).1 ≡ y')
as_result-as_bytes true true k r rest = (true, refl, refl)
as_result-as_bytes false false k r rest = (true, refl, refl)
as_result-as_bytes true false k r rest = absurd (ground (arith, k))
as_result-as_bytes false true k r rest = absurd (ground (arith, k))

as_result-end : (y : Bool) → as_result y [] ≡ eof
as_result-end true = refl
as_result-end false = refl

abbrev disk : Disk
disk = record {
  results_file = none;
  mkdir_all = true;
  create = true;
  write = λ n. true;
  out = true;
}

-- The context is done when the third result comes.
abbrev deadline : ℕ → Bool
deadline n = leb 2 n

deadline-final : (m : ℕ) → deadline m ≡ true → deadline (suc m) ≡ true
deadline-final m h = ground (arith, h)

abbrev sent : List ℕ
sent = 201 ∷ 201 ∷ 409 ∷ 201 ∷ []

read_results-ends_example : Ended same_code stream (read_results same_code stream 5 true sent [])
read_results-ends_example =
    read_results-ends same_code stream as_result-shrinks 5 true sent [] (omega arith)

collect-KeepsFrom_example : (k : ℕ) × KeepsFrom same_code stream deadline deadline-final 0 sent k
collect-KeepsFrom_example = collect-KeepsFrom same_code stream deadline deadline-final 0 sent

no_error : (run_load_test same_code stream (pos 5) deadline sent disk).0 ≡ none
unfolding run_load_test save_results
no_error = refl

run_load_test-render_report_example :
    render_report same_code stream (run_load_test same_code stream (pos 5) deadline sent disk).1
    ≡ inr (collect same_code stream deadline 0 sent)
run_load_test-render_report_example =
    run_load_test-render_report same_code stream as_result-shrinks (λ x y. x ≡ y) as_result-as_bytes
      as_result-end refl (pos 5) deadline sent disk no_error
