-- ===== src/Remote.antt =====
-- The remote commands that cmd/file.go, cmd/docker.go, cmd/svc.go and internal/observe/logs.go send.
-- `fmt.Sprintf` with `%d` prints a number by `itoa`; the callers validate that it is not negative.
pub mod Digits
pub mod Names
pub mod Classes
use srvgov_cli.Prelude.{
  ◌/◌, ◌%◌, ℕ, zero, suc, ◌+◌, ◌-◌, ◌*◌, ◌≤◌, ◌<◌, String, ◌≡◌, refl, sym, ap, ◌∙◌, ◌≢◌, ◌↔◌, ◌⊎◌,
  inl, inr, Bool, true, false, not, ◌&&◌, ◌||◌, Option, none, some, List, [], ◌∷◌, ◌++◌, map,
  append-nil, append_assoc, arith, ltb, leb, ◌==◌, if◌then◌else◌, ==_iff, Bool-cases, or_resolve,
  Option-cases, ◌>>=◌, >>=-eq-some, length, take, any, all, length-append, any-append, All,
  All-append, All-map, All-of, IfSome, split_if, IfSome-eq, holds_below, holds_below-at,
}
use srvgov_cli.GoText.{Text, codes}
use srvgov_cli.Observe.ShellQuote.{shell_quote}

unfoldable pub itoa_loop : ℕ → ℕ → Text
itoa_loop zero n = []
itoa_loop (suc fuel) n =
    let front = itoa_loop fuel (n / 10) in
    if ltb n 10 then (b'0' + n) ∷ [] else front ++ (b'0' + n % 10) ∷ []

-- strconv.Itoa; a number has at most as many digits as its value plus one.
unfoldable pub itoa : ℕ → Text
unfolding itoa_loop
itoa n = itoa_loop (suc n) n

-- cmd/file.go
unfoldable pub file_read_command : Text → ℕ → Text
file_read_command path max_bytes =
    codes "head -c " ++ (itoa (max_bytes + 1) ++ (codes " -- " ++ shell_quote path))

unfoldable pub file_stat_command : Text → Text
file_stat_command path = codes "stat -c '%F\t%s\t%a\t%U\t%G\t%Y' -- " ++ shell_quote path

unfoldable pub file_list_command : Text → Text
file_list_command path =
    codes "find "
    ++ (shell_quote path ++ codes " -mindepth 1 -maxdepth 1 -printf '%f\\0%y\\0%s\\0%m\\0%T@\\0'")

unfoldable pub file_write_policy_command : Text → Text
file_write_policy_command path = codes "tee -- " ++ shell_quote path

unfoldable pub file_write_resolve_directory_command : Text → Text
file_write_resolve_directory_command directory = codes "readlink -f -- " ++ shell_quote directory

unfoldable pub file_write_directory_identity_command : Text → Text
file_write_directory_identity_command directory =
    codes "stat -Lc '%d:%i' -- " ++ shell_quote directory

-- cmd/docker.go
unfoldable pub docker_logs_command : Text → ℕ → Text
docker_logs_command container tail =
    codes "docker logs --timestamps --tail "
    ++ (itoa tail ++ (codes " -- " ++ shell_quote container))

unfoldable pub docker_action_command : Text → Text → Text
docker_action_command action container =
    codes "docker " ++ (action ++ (codes " " ++ shell_quote container))

unfoldable pub docker_inspect_projection : Text
docker_inspect_projection =
    codes "{\"id\":{{json .Id}},\"name\":{{json .Name}},\"image\":{{json .Config.Image}},"
    ++ (codes "\"state\":{{json .State.Status}},\"status\":{{json .State.Status}},"
        ++ (codes "\"restartPolicy\":{{json .HostConfig.RestartPolicy.Name}},"
            ++ (codes "\"ports\":{{json .NetworkSettings.Ports}},\"mounts\":{{json .Mounts}},"
                ++ codes "\"createdAt\":{{json .Created}}}")))

unfoldable pub docker_inspect_command : Text → Text
docker_inspect_command container =
    codes "docker inspect --format '"
    ++ (docker_inspect_projection ++ (codes "' -- " ++ shell_quote container))

-- cmd/svc.go
unfoldable pub service_status_command : Text → Text
service_status_command unit =
    codes "systemctl show "
    ++ (shell_quote unit
        ++ codes
            " --property=LoadState,ActiveState,SubState,UnitFileState,Description,MainPID --no-pager")

unfoldable pub service_action_command : Text → Text → Text
service_action_command action unit =
    codes "systemctl " ++ (action ++ (codes " " ++ shell_quote unit))

-- internal/observe/logs.go
pub record LogOptions : Type 0 where
  pub unit : Text
  pub file : Text
  pub since : Text
  pub lines : ℕ
  pub priority : Text
  pub grep : Text

-- `appendQuotedOption`: the text of an option before the others, each part behind a space.
append_quoted_option : String → Text → Text → Text
append_quoted_option name [] rest = rest
append_quoted_option name (c ∷ value) rest =
    codes " " ++ (codes name ++ (codes " " ++ (shell_quote (c ∷ value) ++ rest)))

unfoldable pub journal_command : LogOptions → Text
unfolding append_quoted_option
journal_command opts =
    codes "journalctl --no-pager --output=json --lines "
    ++ (itoa opts.lines
        ++ append_quoted_option "--unit" opts.unit (
            append_quoted_option "--since" opts.since (
              append_quoted_option "--priority" opts.priority
                (append_quoted_option "--grep" opts.grep []))))

unfoldable pub file_command : LogOptions → Text
file_command opts = codes "tail -n " ++ (itoa opts.lines ++ (codes " -- " ++ shell_quote opts.file))

unfoldable pub systemctl_command : LogOptions → Text
systemctl_command opts =
    codes "systemctl status --no-pager --lines "
    ++ (itoa opts.lines ++ (codes " -- " ++ shell_quote opts.unit))
