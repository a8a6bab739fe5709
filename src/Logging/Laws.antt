-- ===== src/Logging/Laws.antt =====
-- What reaches the log.
use pr_reviewer_service.Prelude.{
  ℕ, String, ◌≡◌, refl, ◌∙◌, ap, false, Option, none, some, List, [], ◌∷◌, ◌++◌, ◌==◌, leb,
  if◌then◌else◌, arith, eq_iff,
}
use pr_reviewer_service.Logging.{
  LogCtx, Context, value, ctx_or, with_field, with_log_request_id, with_log_request_path,
  with_log_request_method, with_log_request_status, with_log_request_duration, with_log_team_name,
  with_log_team_members_count, with_log_user_id, with_log_author_id, with_log_pull_request_id,
  LogError, behind, error, wrap_error, as_log_error, restored, error_ctx, Attribute, text, number,
  attributes, attributes_of, handle_record, added_attributes, add_text, add_number,
}

-- One call of a `WithLog` function.
pub data Note : Type 0 where
  request_id path method request_duration team_name user_id author_id pull_request_id :
      String → Note
  status team_members_count : ℕ → Note

-- What a call notes in the values.
abbrev pub noted : LogCtx → Note → LogCtx
noted c (request_id x) = record c { request_id = x }
noted c (path x) = record c { path = x }
noted c (method x) = record c { method = x }
noted c (request_duration x) = record c { request_duration = x }
noted c (team_name x) = record c { team_name = x }
noted c (user_id x) = record c { user_id = x }
noted c (author_id x) = record c { author_id = x }
noted c (pull_request_id x) = record c { pull_request_id = x }
noted c (status n) = record c { status = n }
noted c (team_members_count n) = record c { team_members_count = n }

-- The call itself.
abbrev pub note : Context → Note → Context
note ctx (request_id x) = with_log_request_id ctx x
note ctx (path x) = with_log_request_path ctx x
note ctx (method x) = with_log_request_method ctx x
note ctx (request_duration x) = with_log_request_duration ctx x
note ctx (team_name x) = with_log_team_name ctx x
note ctx (user_id x) = with_log_user_id ctx x
note ctx (author_id x) = with_log_author_id ctx x
note ctx (pull_request_id x) = with_log_pull_request_id ctx x
note ctx (status n) = with_log_request_status ctx n
note ctx (team_members_count n) = with_log_team_members_count ctx n

-- Calls one after the other.
abbrev pub notes : Context → List Note → Context
notes ctx [] = ctx
notes ctx (n ∷ ns) = notes (note ctx n) ns

abbrev pub noted_all : LogCtx → List Note → LogCtx
noted_all c [] = c
noted_all c (n ∷ ns) = noted_all (noted c n) ns

value-note : (ctx : Context) (n : Note) → ctx_or (value (note ctx n)) ≡ noted (ctx_or (value ctx)) n
unfolding value with_field with_log_request_id with_log_request_path with_log_request_method
    with_log_request_status with_log_request_duration with_log_team_name with_log_team_members_count
    with_log_user_id with_log_author_id with_log_pull_request_id
value-note ctx (request_id x) = refl
value-note ctx (path x) = refl
value-note ctx (method x) = refl
value-note ctx (request_duration x) = refl
value-note ctx (team_name x) = refl
value-note ctx (user_id x) = refl
value-note ctx (author_id x) = refl
value-note ctx (pull_request_id x) = refl
value-note ctx (status n) = refl
value-note ctx (team_members_count n) = refl

-- After any calls of the `WithLog` functions the context holds what was there, with each field as the
-- last call for it has set it.
pub value-notes :
    (ctx : Context) (ns : List Note)
    → ctx_or (value (notes ctx ns)) ≡ noted_all (ctx_or (value ctx)) ns
value-notes ctx [] = refl
value-notes ctx (n ∷ ns) = value-notes (note ctx n) ns ∙ ap (λ c. noted_all c ns) (value-note ctx n)

-- An error behind texts, the first outermost.
abbrev pub behind_all : List String → LogError → LogError
behind_all [] e = e
behind_all (t ∷ ts) e = behind t (behind_all ts e)

as_log_error-behind_all :
    (ts : List String) (e : LogError) → as_log_error (behind_all ts e) ≡ as_log_error e
unfolding as_log_error
as_log_error-behind_all [] e = refl
as_log_error-behind_all (t ∷ ts) e = as_log_error-behind_all ts e

-- The values that `WrapError` takes from one context are those that `ErrorCtx` restores in another,
-- however often `fmt.Errorf` has wrapped the error in between; and the error reads as it did before.
pub error_ctx-wrap_error :
    (join : String → String → String) (ctx ctx' : Context) (ts : List String) (e : LogError)
    → (value (error_ctx ctx' (behind_all ts (wrap_error ctx e))) ≡ some (ctx_or (value ctx)))
      × (error join (behind_all ts (wrap_error ctx e)) ≡ error join (behind_all ts e))
unfolding error_ctx wrap_error error value
error_ctx-wrap_error join ctx ctx' ts e =
    (ap (λ o. value (restored ctx' o)) (as_log_error-behind_all ts (wrap_error ctx e)), reads ts)
  where
    reads :
        (ts : List String)
        → error join (behind_all ts (wrap_error ctx e)) ≡ error join (behind_all ts e)
    reads [] = refl
    reads (t ∷ ts) = ap (join t) (reads ts)

-- The values of a log record, by name: empty or zero where the name is not there.
abbrev text_of : Attribute → String
text_of (text x) = x
text_of (number n) = ""

abbrev number_of : Attribute → ℕ
number_of (text x) = 0
number_of (number n) = n

unfoldable pub get_text : String → List (String × Attribute) → String
get_text name [] = ""
get_text name ((key, a) ∷ rest) = if key == name then text_of a else get_text name rest

unfoldable pub get_number : String → List (String × Attribute) → ℕ
get_number name [] = 0
get_number name ((key, a) ∷ rest) = if key == name then number_of a else get_number name rest

-- The values that a record of the log tells.
abbrev pub told : List (String × Attribute) → LogCtx
told r = record {
  request_id = get_text "requestid" r;
  status = get_number "status" r;
  request_start = get_text "requeststart" r;
  request_duration = get_text "requestduration" r;
  method = get_text "method" r;
  path = get_text "path" r;
  team_name = get_text "teamname" r;
  team_members_count = get_number "teammemberscount" r;
  user_id = get_text "userid" r;
  author_id = get_text "authorid" r;
  pull_request_id = get_text "pullrequestid" r;
}

module _ (name : String) (rest : List (String × Attribute)) where
  get_text-add_text :
      (key x : String)
      → get_text name (add_text key x rest)
        ≡ (if key == name then (if x == "" then get_text name rest else x) else get_text name rest)
  unfolding get_text
  get_text-add_text key x = ground arith

  get_text-add_number :
      (key : String) (n : ℕ)
      → (key == name) ≡ false
      → get_text name (add_number key n rest) ≡ get_text name rest
  unfolding get_text
  get_text-add_number key n h = ground arith

  get_number-add_text :
      (key x : String)
      → (key == name) ≡ false
      → get_number name (add_text key x rest) ≡ get_number name rest
  unfolding get_number
  get_number-add_text key x h = ground arith

  get_number-add_number :
      (key : String) (n : ℕ)
      → get_number name (add_number key n rest) ≡ (
          if key == name
          then (if leb n 0 then get_number name rest else n)
          else get_number name rest)
  unfolding get_number
  get_number-add_number key n = ground arith

text_kept : (x : String) → (if x == "" then "" else x) ≡ x
text_kept x = ground (arith, eq_iff x "")

number_kept : (n : ℕ) → (if leb n 0 then 0 else n) ≡ n
number_kept n = ground arith

module _ (rest : List (String × Attribute)) where
  add_text-append :
      (key x : String) (r : List (String × Attribute))
      → add_text key x r ++ rest ≡ add_text key x (r ++ rest)
  add_text-append key x r = ground arith

  add_number-append :
      (key : String) (n : ℕ) (r : List (String × Attribute))
      → add_number key n r ++ rest ≡ add_number key n (r ++ rest)
  add_number-append key n r = ground arith

module _ (c : LogCtx) where
  told-attributes : told (attributes c) ≡ c
  unfolding attributes get_text get_number
  told-attributes =
      simp
        (
          get_text-add_text, get_text-add_number, get_number-add_text, get_number-add_number,
          text_kept, number_kept,
        )
        refl

  told-source : (place : String) → told (attributes c ++ ("source", text place) ∷ []) ≡ c
  unfolding attributes get_text get_number
  told-source place =
      simp
        (
          add_text-append, add_number-append, get_text-add_text, get_text-add_number,
          get_number-add_text, get_number-add_number, text_kept, number_kept,
        )
        refl

-- What is added tells the values of the context.
pub told-added_attributes :
    (ctx : Context) (source : Option String)
    → told (added_attributes ctx source) ≡ ctx_or (value ctx)
unfolding added_attributes get_text get_number
told-added_attributes ctx none = of_value (value ctx)
  where
    of_value : (v : Option LogCtx) → told (attributes_of v) ≡ ctx_or v
    of_value none = refl
    of_value (some c) = told-attributes c
told-added_attributes ctx (some place) = of_value (value ctx)
  where
    of_value :
        (v : Option LogCtx) → told (attributes_of v ++ ("source", text place) ∷ []) ≡ ctx_or v
    of_value none = refl
    of_value (some c) = told-source c place

-- Every record of the log keeps the attributes that it had, and those that `Handle` adds tell the
-- values that the context holds, field by field and by the fields' names in small letters: what they
-- leave out is what is empty in the context.
pub told-handle_record :
    (ctx : Context) (source : Option String) (rec : List (String × Attribute))
    → (new : List (String × Attribute)) × (handle_record ctx source rec ≡ rec ++ new)
      × (told new ≡ ctx_or (value ctx))
unfolding handle_record
told-handle_record ctx source rec =
    (added_attributes ctx source, refl, told-added_attributes ctx source)
