-- ===== src/Api/Routes.antt =====
-- internal/api/server.go: the routes of `Handler`, with the middleware that authenticates.
use calligraphy.Base.{
  ℕ, ◌≡◌, refl, String, List, [], Bool, true, false, ◌||◌, Option, if◌then◌else◌, Result,
  Unavailable, arith,
}
use calligraphy.Job.Errors.{Bytes}
use calligraphy.Store.Db.{Db}
use calligraphy.Queue.Depths.{Depths}
use calligraphy.Control.Hub.{Hub}
use calligraphy.Api.Http.{Reply, Sent, Outcome, Answers, write_err}
use calligraphy.Api.Submit.{Server, Decoded, handle_submit}
use calligraphy.Api.Jobs.{
  handle_get_job, handle_get_result, handle_get_attempts, handle_cancel, handle_requeue_dlq,
}
use calligraphy.Api.Auth.{admits}
use calligraphy.Api.Ops.{
  Since, Order, handle_depths, handle_summary, handle_list_dlq, handle_workers,
  handle_control_workers, control_cmd, handle_set_concurrency, handle_meta, handle_healthz,
  handle_readyz,
}

-- A request that a pattern of the mux matches, by that pattern; the path of /metrics is left out.
pub data Request : Type 0 where
  get_healthz get_readyz : Request
  post_jobs : Decoded → Request
  get_job get_job_result get_job_attempts delete_job : String → Request
  get_depths : Request
  get_summary : Since → Request
  get_dlq : Request
  post_requeue : String → Request
  get_workers get_meta get_control_workers : Request
  post_order : Order → String → Request
  post_concurrency : String → Option ℕ → Request

-- What the program around a request is, and what it answers to this one.
pub record World : Type 0 where
  pub server : Server
  pub digest : Bytes → Bytes
  pub tokens : List Bytes  -- their digests
  pub json_valid : Bytes → Bool
  pub new_id : String
  pub cmd_id : String
  pub now : ℕ
  pub answers : Answers
  pub listed : Bool  -- the queries that only list, and the second one of the attempts
  pub queue_depths : Result Unavailable Depths
  pub store_up : Bool
  pub queue_up : Bool

-- The state behind the API, and what a request makes of it.
pub record Site : Type 0 where
  pub db : Db
  pub hub : Option Hub

pub record Served : Type 0 where
  pub site : Site
  pub reply : Reply
  pub sent : List Sent

abbrev pub shows : Site → Reply → Served
shows site reply = record { site = site; reply = reply; sent = [] }

abbrev pub changes : Site → Outcome → Served
changes site out = record { site = record site { db = out.db }; reply = out.reply; sent = out.sent }

abbrev pub commands : Site → Option Hub × Reply → Served
commands site (hub, reply) = record { site = record site { hub = hub }; reply = reply; sent = [] }

unfoldable pub handle : World → Request → Site → Served
handle w get_healthz s = shows s handle_healthz
handle w get_readyz s = shows s (handle_readyz w.store_up w.queue_up)
handle w (post_jobs d) s =
    changes s (handle_submit w.server w.answers w.json_valid w.new_id w.now d s.db)
handle w (get_job id) s = shows s (handle_get_job w.answers id s.db)
handle w (get_job_result id) s = shows s (handle_get_result w.answers id s.db)
handle w (get_job_attempts id) s = shows s (handle_get_attempts w.answers w.listed id s.db)
handle w (delete_job id) s = changes s (handle_cancel w.answers id w.now s.db)
handle w get_depths s = shows s (handle_depths w.queue_depths)
handle w (get_summary since) s = shows s (handle_summary w.listed since w.now s.db)
handle w get_dlq s = shows s (handle_list_dlq w.listed s.db)
handle w (post_requeue id) s = changes s (handle_requeue_dlq w.answers id w.now s.db)
handle w get_workers s = shows s (handle_workers w.listed s.db)
handle w get_meta s = shows s handle_meta
handle w get_control_workers s = shows s (handle_control_workers s.hub)
handle w (post_order o id) s = commands s (control_cmd o w.cmd_id id s.hub)
handle w (post_concurrency id target) s =
    commands s (handle_set_concurrency target w.cmd_id id s.hub)

-- The patterns that are not wrapped in `authed`.
abbrev pub is_open : Request → Bool
is_open get_healthz = true
is_open get_readyz = true
is_open _ = false

unfoldable pub serve : World → Bytes → Request → Site → Served
unfolding admits handle
serve w header r s =
    if is_open r || admits w.digest w.tokens header
    then handle w r s
    else shows s (write_err 401 "unauthorized")

-- The patterns that start with GET.
abbrev pub is_get : Request → Bool
is_get (post_jobs d) = false
is_get (delete_job id) = false
is_get (post_requeue id) = false
is_get (post_order o id) = false
is_get (post_concurrency id target) = false
is_get _ = true

abbrev pub Untouched : Site → Served → Type 0
Untouched s out = (out.site ≡ s) × (out.sent ≡ [])

pub get-Untouched :
    (w : World) (r : Request) (s : Site) → is_get r ≡ true → Untouched s (handle w r s)
unfolding handle
get-Untouched w get_healthz s h = (refl, refl)
get-Untouched w get_readyz s h = (refl, refl)
get-Untouched w (get_job id) s h = (refl, refl)
get-Untouched w (get_job_result id) s h = (refl, refl)
get-Untouched w (get_job_attempts id) s h = (refl, refl)
get-Untouched w get_depths s h = (refl, refl)
get-Untouched w (get_summary since) s h = (refl, refl)
get-Untouched w get_dlq s h = (refl, refl)
get-Untouched w get_workers s h = (refl, refl)
get-Untouched w get_meta s h = (refl, refl)
get-Untouched w get_control_workers s h = (refl, refl)
get-Untouched w (post_jobs d) s h = absurd (grind (arith, h))
get-Untouched w (delete_job id) s h = absurd (grind (arith, h))
get-Untouched w (post_requeue id) s h = absurd (grind (arith, h))
get-Untouched w (post_order o id) s h = absurd (grind (arith, h))
get-Untouched w (post_concurrency id target) s h = absurd (grind (arith, h))

pub open_is_get : (r : Request) → is_open r ≡ true → is_get r ≡ true
open_is_get get_healthz h = refl
open_is_get get_readyz h = refl
open_is_get (get_job id) h = absurd (grind (arith, h))
open_is_get (get_job_result id) h = absurd (grind (arith, h))
open_is_get (get_job_attempts id) h = absurd (grind (arith, h))
open_is_get get_depths h = absurd (grind (arith, h))
open_is_get (get_summary since) h = absurd (grind (arith, h))
open_is_get get_dlq h = absurd (grind (arith, h))
open_is_get get_workers h = absurd (grind (arith, h))
open_is_get get_meta h = absurd (grind (arith, h))
open_is_get get_control_workers h = absurd (grind (arith, h))
open_is_get (post_jobs d) h = absurd (grind (arith, h))
open_is_get (delete_job id) h = absurd (grind (arith, h))
open_is_get (post_requeue id) h = absurd (grind (arith, h))
open_is_get (post_order o id) h = absurd (grind (arith, h))
open_is_get (post_concurrency id target) h = absurd (grind (arith, h))
