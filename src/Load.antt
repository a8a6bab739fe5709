-- ===== src/Load.antt =====
-- load/cli/main.go: the load generator. Vegeta, which sends the requests and writes and reads its
-- results, and the file system are parameters; what is only printed is left out.
pub mod Laws
use Prim.Native.String
use pr_reviewer_service.Prelude.{
  ℕ, zero, suc, String, Bool, true, Option, none, some, List, [], ◌∷◌, ◌++◌, count_if, leb, ◌⊎◌,
  inl, inr, ◌&&◌, if◌then◌else◌, ℤ, is_positive, length,
}
use pr_reviewer_service.Http.Response.{ApiTeam}
use pr_reviewer_service.Http.Handlers.{CreateRequest}

-- `vegeta.Target`, its body the value that `json.Marshal` encodes
pub record Target (Body : Type 0) : Type 0 where
  pub method : String
  pub url : String
  pub body : Body

-- The payload and the target of `setupTeam`.
abbrev pub setup_target : String → String → Target ApiTeam
setup_target base_url team_name = record {
  method = "POST";
  url = String.◌++◌ base_url "/team/add";
  body = record {
    team_name = team_name;
    members =
        record { user_id = "lu1"; username = "Load Alice"; is_active = true }
        ∷ record { user_id = "lu2"; username = "Load Bob"; is_active = true }
        ∷ record { user_id = "lu3"; username = "Load Carol"; is_active = true }
        ∷ [];
  };
}

-- `newPullRequestTargeter`, given the nanoseconds of the clock and its time as texts
abbrev pub new_pull_request_targeter : String → String → String → Target CreateRequest
new_pull_request_targeter base_url nanos time = record {
  method = "POST";
  url = String.◌++◌ base_url "/pullRequest/create";
  body = record {
    id = String.◌++◌ "load-" nanos;
    name = String.◌++◌ "Load test PR " time;
    author = "lu1";
  };
}

-- The errors of the generator.
pub data LoadError : Type 0 where
  not_created rate_not_positive mkdir_failed create_failed write_failed report_failed : LoadError
  open_failed decode_failed : LoadError

-- What `decoder.Decode` gives from the bytes that are left: with a result, those that are left then,
-- and the state of the decoder.
pub data Decoded (R D : Type 0) : Type 0 where
  result : R → List ℕ → D → Decoded R D
  eof bad : Decoded R D

-- `vegeta.NewEncoder` with its `Encode`, and `vegeta.NewDecoder` with its `Decode`. Both have a state:
-- gob describes a type once in a stream.
pub record Codec (R E D : Type 0) : Type 0 where
  pub new_encoder : E
  pub encode : E → R → List ℕ × E
  pub new_decoder : D
  pub decode : D → List ℕ → Decoded R D

-- The loop of `renderReport` over the decoder: all the results, or a failure. `out_of_fuel` stands for
-- nothing of the source.
pub data Read (R : Type 0) : Type 0 where
  all_read : List R → Read R
  bad_read : Read R
  out_of_fuel : Read R

-- The file system: the bytes of the file of results where it is there, and whether the calls succeed: the
-- directory, the file, the write of each result, and the report.
pub record Disk : Type 0 where
  pub results_file : Option (List ℕ)
  pub mkdir_all : Bool
  pub create : Bool
  pub write : ℕ → Bool
  pub out : Bool

pub record Flags : Type 0 where
  pub base_url : String
  pub rate : ℤ
  pub team_name : String
  pub setup_only : Bool
  pub report : Bool
  pub plot : Bool

abbrev pub is_code : ℕ → ℕ → Bool
is_code m n = leb m n && leb n m

-- `R` is `vegeta.Result` and `code` its status.
module _ {R E D : Type 0} (code : R → ℕ) (c : Codec R E D) where
  -- The test of `setupTeam` on the status codes of its attack.
  unfoldable pub setup_team : List R → Option LoadError
  setup_team results =
      if leb (count_if (λ r. is_code 201 (code r)) results) 0
        && leb (count_if (λ r. is_code 400 (code r)) results) 0
      then some not_created
      else none

  -- The loop over the results that the attack sends, the first `n` of them taken: `expired n` says
  -- whether the context is done by then. Its `break` leaves the `select` alone.
  unfoldable pub collect : (ℕ → Bool) → ℕ → List R → List R
  collect expired n [] = []
  collect expired n (r ∷ rs) =
      let rest = collect expired (suc n) rs in if expired n then rest else r ∷ rest

  -- The loop of `saveResults`, from result `n` on, with the encoder and the bytes that are written.
  unfoldable pub write_from : Disk → ℕ → E → List R → List ℕ → Option LoadError × List ℕ
  write_from d n x [] bytes = (none, bytes)
  write_from d n x (r ∷ rs) bytes =
      let (out, x') = c.encode x r in
      let rest = write_from d (suc n) x' rs (bytes ++ out) in
      if d.write n then rest else (some write_failed, bytes)

  -- `saveResults`: `os.Create` empties the file.
  unfoldable pub save_results : Disk → List R → Option LoadError × Disk
  unfolding write_from
  save_results d rs =
      if d.mkdir_all
      then (if d.create
          then (let (x, bytes) = write_from d 0 c.new_encoder rs [] in
              (x, record d { results_file = some bytes }))
          else (some create_failed, d))
      else (some mkdir_failed, d)

  abbrev pub reported : Disk → Option LoadError × Disk → Option LoadError × Disk
  reported d (some x, d') = (some x, d')
  reported d (none, d') = (if d.out then none else some report_failed, d')

  unfoldable pub run_load_test : ℤ → (ℕ → Bool) → List R → Disk → Option LoadError × Disk
  unfolding collect save_results
  run_load_test rate expired results d =
      if is_positive rate
      then reported d (save_results d (collect expired 0 results))
      else (some rate_not_positive, d)

  abbrev pub read_next : Decoded R D → List R → (R → List ℕ → D → Read R) → Read R
  read_next (result r rest y) rs next = next r rest y
  read_next eof rs next = all_read rs
  read_next bad rs next = bad_read

  -- Each round reads at least a byte, so as many rounds as there are bytes, and one for the end.
  unfoldable pub read_results : ℕ → D → List ℕ → List R → Read R
  read_results zero y bytes rs = out_of_fuel
  read_results (suc n) y bytes rs =
      read_next (c.decode y bytes) rs λ r rest y'. read_results n y' rest (rs ++ r ∷ [])

  -- `renderReport`: the results that the report is about, or an error.
  abbrev pub rendered : Disk → Read R → LoadError ⊎ List R
  rendered d (all_read rs) = if d.out then inr rs else inl report_failed
  rendered d bad_read = inl decode_failed
  rendered d out_of_fuel = inl decode_failed

  abbrev pub report_of : Disk → Option (List ℕ) → LoadError ⊎ List R
  report_of d none = inl open_failed
  report_of d (some bytes) = rendered d (read_results (suc (length bytes)) c.new_decoder bytes [])

  unfoldable pub render_report : Disk → LoadError ⊎ List R
  render_report d = report_of d d.results_file

  -- `main`: which part runs, and the error that ends it. `setup` and `results` are what the two
  -- attacks give.
  abbrev pub failure : LoadError ⊎ List R → Option LoadError
  failure (inl x) = some x
  failure (inr rs) = none

  abbrev pub after_setup :
      Option LoadError → Option LoadError × Disk → Disk → Option LoadError × Disk
  after_setup (some x) rest d = (some x, d)
  after_setup none rest d = rest

  unfoldable pub main : Flags → List R → (ℕ → Bool) → List R → Disk → Option LoadError × Disk
  unfolding render_report setup_team run_load_test
  main f setup expired results d =
      if f.report
      then (failure (render_report d), d)
      else if f.plot
      then (none, d)
      else if f.setup_only
      then (setup_team setup, d)
      else after_setup (setup_team setup) (run_load_test f.rate expired results d) d
