-- ===== src/Core/Rest/Workers.antt =====
-- v2/apiserver/internal/core/rest/workers_endpoints.go and jobs_endpoints.go.
use brignext.Base.{if◌then◌else◌}
use brignext.Core.Types.{Job, JobStatus, WorkerStatus}
use brignext.Core.Services.Workers.{WorkersService}
use brignext.Core.Services.Workers
use brignext.Core.Services.Jobs.{JobsService}
use brignext.Core.Services.Jobs
use brignext.Core.Rest.Events.{stream_reply}
use brignext.Rest.Endpoints.{status_ok}
use brignext.Rest.Requests.{Request, Reply, query_of, var_of, serve, serve_body, parse_bool}

module _ {W : Type 0} (s : WorkersService W) where
  unfoldable pub start_worker : Request → W → Reply (Unit {0}) × W
  start_worker r w = serve status_ok (Workers.start s (var_of r "eventID")) w

  unfoldable pub get_or_stream_worker_status : Request → W → Reply WorkerStatus × W
  get_or_stream_worker_status r w =
      let watched = Workers.watch_status s (var_of r "eventID") w in
      if parse_bool (query_of r "watch")
      then (stream_reply watched.0, watched.1)
      else serve status_ok (Workers.get_status s (var_of r "eventID")) w

  unfoldable pub update_worker_status : WorkerStatus → Request → W → Reply (Unit {0}) × W
  update_worker_status status r w =
      serve_body r status_ok (Workers.update_status s (var_of r "eventID") status) w

module _ {W : Type 0} (s : JobsService W) where
  unfoldable pub create_job : Job → Request → W → Reply (Unit {0}) × W
  create_job job r w =
      serve_body r 201 (Jobs.create s (var_of r "eventID") (var_of r "jobName") job) w

  unfoldable pub start_job : Request → W → Reply (Unit {0}) × W
  start_job r w = serve status_ok (Jobs.start s (var_of r "eventID") (var_of r "jobName")) w

  unfoldable pub get_or_stream_job_status : Request → W → Reply JobStatus × W
  get_or_stream_job_status r w =
      let watched = Jobs.watch_status s (var_of r "eventID") (var_of r "jobName") w in
      if parse_bool (query_of r "watch")
      then (stream_reply watched.0, watched.1)
      else serve status_ok (Jobs.get_status s (var_of r "eventID") (var_of r "jobName")) w

  unfoldable pub update_job_status : JobStatus → Request → W → Reply (Unit {0}) × W
  update_job_status status r w =
      serve_body r status_ok (Jobs.update_status s (var_of r "eventID") (var_of r "jobName") status)
        w
