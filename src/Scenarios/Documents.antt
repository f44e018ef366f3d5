-- ===== src/Scenarios/Documents.antt =====
-- A request and a receipt, written to documents and read again.
use sts2_the_perfect_defect.Prelude.{◌≡◌, refl, none, some}
use sts2_the_perfect_defect.Prelude.Result.{ok, ◌>>=◌}
use sts2_the_perfect_defect.Boundary.Json.{null, str}
use sts2_the_perfect_defect.Boundary.Checks.{check_text, text, check_digest, is_digest, digest}
use sts2_the_perfect_defect.Contracts.Producer.{producer_init, validate_durable_metadata}
use sts2_the_perfect_defect.Contracts.Request.{
  request_decode, request_to_dict, request_init, member_of, optional,
}
use sts2_the_perfect_defect.Contracts.Receipt.{
  ComputeReceipt, receipt_init, receipt_decode, receipt_to_dict,
}
use sts2_the_perfect_defect.Contracts.RoundTrip.{
  IsProducer, request_decode-request_to_dict, receipt_decode-receipt_to_dict,
}
use sts2_the_perfect_defect.Scenarios.Data.{rt, sha_a, producer, request}

abbrev receipt : ComputeReceipt
receipt = record {
  request_id = sha_a;
  attempt_id = "attempt";
  kind = "training";
  input_id = sha_a;
  producer = producer;
  state = "paused";
  output_id = none;
  checkpoint_id = some sha_a;
}

producer_valid : IsProducer rt producer
unfolding producer_init validate_durable_metadata check_text text check_digest is_digest digest
    ◌>>=◌
producer_valid = refl

request_valid :
    request_init (str "training") (str sha_a) producer (str "attempt") null null ≡ ok request
unfolding request_init member_of optional check_text text check_digest is_digest digest ◌>>=◌
request_valid = refl

receipt_valid :
    receipt_init
      (str sha_a)
      (str "attempt")
      (str "training")
      (str sha_a)
      producer
      (str "paused")
      null
      (str sha_a)
    ≡ ok receipt
unfolding receipt_init request_init member_of optional check_text text check_digest is_digest digest
    ◌>>=◌
receipt_valid = refl

request_decode-request_to_dict_example : request_decode rt (request_to_dict request) ≡ ok request
request_decode-request_to_dict_example =
    request_decode-request_to_dict rt (str "training") (str sha_a) (str "attempt") null null request
      producer_valid request_valid

receipt_decode-receipt_to_dict_example : receipt_decode rt (receipt_to_dict receipt) ≡ ok receipt
receipt_decode-receipt_to_dict_example =
    receipt_decode-receipt_to_dict rt (str sha_a) (str "attempt") (str "training") (str sha_a)
      (str "paused") null (str sha_a) receipt producer_valid receipt_valid
