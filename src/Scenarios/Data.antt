-- ===== src/Scenarios/Data.antt =====
-- The concrete data of the scenarios.
use sts2_the_perfect_defect.Prelude.{String, false, none, some, []}
use sts2_the_perfect_defect.Contracts.Runtime.{Runtime}
use sts2_the_perfect_defect.Contracts.Producer.{Producer}
use sts2_the_perfect_defect.Contracts.Request.{ComputeRequest}
use sts2_the_perfect_defect.Contracts.Call.{ModalCall}
use sts2_the_perfect_defect.Hub.Schema.{Db}

abbrev pub sha_a : String
sha_a = "aaaaaaaaaaaaaaaaaaaaaaaaaaaaaaaaaaaaaaaaaaaaaaaaaaaaaaaaaaaaaaaa"

abbrev pub revision : String
revision = "bbbbbbbbbbbbbbbbbbbbbbbbbbbbbbbbbbbbbbbb"

-- Hashes that keep a text apart from every other, and documents all alike
abbrev pub rt : Runtime
rt = record {
  sha256 = λ s. s;
  semantic_hash = λ j. sha_a;
  urlsplit = λ s. some (record { scheme = ""; username = none; password = none; keys = [] });
  casefold = λ s. s;
  canonical_json = λ j. "{}";
  lower = λ s. s;
}

abbrev pub producer : Producer
producer = record { repository = "repo"; source_revision = revision; uv_lock_sha256 = sha_a }

abbrev pub request : ComputeRequest
request = record {
  kind = "training";
  input_id = sha_a;
  producer = producer;
  attempt_id = "attempt";
  resume = none;
  stop_after = none;
}

abbrev pub empty : Db
empty = record {
  paused = false;
  devices = [];
  uploads = [];
  jobs = [];
  attempts = [];
  members = [];
  events = [];
}

-- The provider's handle of the request
abbrev pub handle : ModalCall
handle = record { target_id = sha_a; request = request; call_id = "fc-1" }
