-- ===== src/App/Logger.antt =====
-- `setupLogger` of cmd/run/main.go
use pr_reviewer_service.Prelude.{
  String, Bool, true, false, Option, none, some, ◌==◌, if◌then◌else◌, ◌||◌,
}
use pr_reviewer_service.Config.{Config}

pub data Level : Type 0 where
  level_debug level_info level_warn level_error : Level

pub data Writer : Type 0 where
  stdout stderr : Writer
  file : String → Writer

-- The writer and the level of the handler, and whether the cleanup has a file to close.
pub record Logger : Type 0 where
  pub writer : Writer
  pub level : Level
  pub has_closer : Bool

-- The `switch` on the level, in small letters.
unfoldable pub level_of : String → Level
level_of s =
    if s == "debug"
    then level_debug
    else if s == "info"
    then level_info
    else if s == "warn"
    then level_warn
    else if s == "error"
    then level_error
    else level_info

-- `to_lower` is `strings.ToLower`; `mkdir_all` and `open_file` say whether making the directory of a
-- path and opening the file there succeed.
module _ (to_lower : String → String) (mkdir_all open_file : String → Bool) where
  -- The default of the `switch` on the output; `none` is `log.Fatalf`.
  unfoldable pub log_file : String → Level → Option Logger
  log_file path level =
      if mkdir_all path
      then (if open_file path
          then some (record { writer = file path; level = level; has_closer = true })
          else none)
      else none

  unfoldable pub setup_logger : Config → Option Logger
  unfolding log_file level_of
  setup_logger c =
      let output = to_lower c.logging.output in
      let level = level_of (to_lower c.logging.level) in
      if output == "stdout" || output == ""
      then some (record { writer = stdout; level = level; has_closer = false })
      else if output == "stderr"
      then some (record { writer = stderr; level = level; has_closer = false })
      else log_file c.logging.output level
