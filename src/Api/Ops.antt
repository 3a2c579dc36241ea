-- ===== src/Api/Ops.antt =====
-- internal/api/server.go: the handlers of operations: depths, summary, dead letters, workers, the
-- commands to workers, and the probes.
use calligraphy.Base.{
  ℕ, ◌-◌, String, Bool, not, Option, none, some, if◌then◌else◌, Result, ok, err, Unavailable,
}
use calligraphy.Store.Db.{Db}
use calligraphy.Store.Reports.{summary, list_dead_letters}
use calligraphy.Store.Workers.{list_workers}
use calligraphy.Queue.Depths.{Depths}
use calligraphy.Control.Hub.{
  Hub, SendError, send_drain, send_pause, send_resume, send_concurrency, workers,
}
use calligraphy.Api.Http.{
  Body, Reply, write_err, depths_body, summary_body, jobs_body, workers_body, views_body, sent_body,
  concurrency_body, meta_body, status_body,
}

unfoldable pub handle_depths : Result Unavailable Depths → Reply
handle_depths (err e) = write_err 503 "queue_unavailable"
handle_depths (ok d) = record { code = 200; body = depths_body d }

-- `since` of the query: absent, or what time.Parse makes of it.
pub data Since : Type 0 where
  absent unparsed : Since
  parsed : ℕ → Since

-- `answered` says whether the queries are.
abbrev pub summarize : Bool → ℕ → Db → Reply
summarize answered since db =
    if answered
    then record { code = 200; body = summary_body (summary since db) }
    else write_err 503 "storage_unavailable"

unfoldable pub handle_summary : Bool → Since → ℕ → Db → Reply
handle_summary answered absent now db = summarize answered (now - 3600000000000) db
handle_summary answered unparsed now db = write_err 400 "invalid_since"
handle_summary answered (parsed t) now db = summarize answered t db

unfoldable pub handle_list_dlq : Bool → Db → Reply
handle_list_dlq answered db =
    if answered
    then record { code = 200; body = jobs_body (list_dead_letters 50 0 db) }
    else write_err 503 "storage_unavailable"

unfoldable pub handle_workers : Bool → Db → Reply
handle_workers answered db =
    if answered
    then record { code = 200; body = workers_body (list_workers db.workers) }
    else write_err 503 "storage_unavailable"

unfoldable pub handle_control_workers : Option Hub → Reply
handle_control_workers none = write_err 503 "no_control_plane"
handle_control_workers (some h) = record { code = 200; body = views_body (workers h) }

-- A command, by the method of the hub that sends it.
pub data Order : Type 0 where
  drains pauses resumes : Order

unfoldable pub order : Order → String → String → Hub → Hub × Result SendError (Unit {0})
order drains cmd_id id h = send_drain cmd_id id h
order pauses cmd_id id h = send_pause cmd_id id h
order resumes cmd_id id h = send_resume cmd_id id h

abbrev pub answered_by : Body → Hub × Result SendError (Unit {0}) → Option Hub × Reply
answered_by body (h, err e) = (some h, write_err 404 "command_failed")
answered_by body (h, ok _) = (some h, record { code = 202; body = body })

unfoldable pub control_cmd : Order → String → String → Option Hub → Option Hub × Reply
unfolding order
control_cmd o cmd_id id none = (none, write_err 503 "no_control_plane")
control_cmd o cmd_id id (some h) = answered_by (sent_body id) (order o cmd_id id h)

-- The target is what the decoder makes of the body.
unfoldable pub handle_set_concurrency : Option ℕ → String → String → Option Hub → Option Hub × Reply
handle_set_concurrency target cmd_id id none = (none, write_err 503 "no_control_plane")
handle_set_concurrency none cmd_id id (some h) = (some h, write_err 400 "invalid_json")
handle_set_concurrency (some target) cmd_id id (some h) =
    answered_by (concurrency_body id target) (send_concurrency cmd_id id target h)

unfoldable pub handle_meta : Reply
handle_meta = record { code = 200; body = meta_body }

unfoldable pub handle_healthz : Reply
handle_healthz = record { code = 200; body = status_body "ok" }

unfoldable pub handle_readyz : Bool → Bool → Reply
handle_readyz store_up queue_up =
    if not store_up
    then write_err 503 "not_ready"
    else if not queue_up
    then write_err 503 "not_ready"
    else record { code = 200; body = status_body "ready" }
