-- ===== src/Contracts/Call.antt =====
-- `ModalTarget` and `ModalCall` of stpd/cloud_jobs/modal.py: where a request runs, and the handle of
-- one running call.
use sts2_the_perfect_defect.Prelude.{
  ℕ, String, Bool, false, ◌&&◌, ◌||◌, Option, List, [], ◌∷◌, ltb, leb, length, ◌==◌, nat_eq,
  string_eq,
}
use sts2_the_perfect_defect.Prelude.Result.{Result, ok, boundary, err, ◌>>=◌, ◌>>◌, guard}
use sts2_the_perfect_defect.Boundary.Json.{Json, num, str, obj, end, field}
use sts2_the_perfect_defect.Boundary.Checks.{codes, all, digest, object_fields, item}
use sts2_the_perfect_defect.Contracts.Runtime.{Runtime}
use sts2_the_perfect_defect.Contracts.Producer.{Producer, producer_to_dict}
use sts2_the_perfect_defect.Contracts.Request.{
  ComputeRequest, request_decode, request_to_dict, opt_str, expect_schema,
}

-- The fields of a target that passed `__post_init__`, whose patterns are not modelled.
pub record ModalTarget : Type 0 where
  pub producer : Producer
  pub image : String
  pub gpu : String
  pub timeout_seconds : ℕ
  pub storage_secret_name : String
  pub qwen_volume_name : Option String

target_to_dict : ModalTarget → Json
target_to_dict t = obj (
    field "gpu" (str t.gpu) (
      field "image" (str t.image) (
        field "producer" (producer_to_dict t.producer) (
          field "qwen_volume_name" (opt_str t.qwen_volume_name) (
            field "schema" (str "stpd/modal-target-v1") (
              field "storage_secret_name" (str t.storage_secret_name)
                (field "timeout_seconds" (num t.timeout_seconds) end)))))))

pub record ModalCall : Type 0 where
  pub target_id : String
  pub request : ComputeRequest
  pub call_id : String

-- `[A-Za-z0-9_-]`
abbrev is_word : ℕ → Bool
is_word c =
    (leb 65 c && leb c 90)
    || (leb 97 c && leb c 122)
    || (leb 48 c && leb c 57)
    || c == 95
    || c == 45

-- `re.fullmatch(r"fc-[A-Za-z0-9_-]+", call_id)`
is_call_id_codes : List ℕ → Bool
is_call_id_codes (a ∷ b ∷ c ∷ rest) =
    a == 102 && (b == 99 && (c == 45 && (ltb 0 (length rest) && all is_word rest)))
is_call_id_codes _ = false

unfoldable pub call_id_text : Json → Result String
unfolding is_call_id_codes
call_id_text (str s) = do
  guard (is_call_id_codes (codes s)) (boundary "modal_call" "invalid_call_id")
  ok s
call_id_text _ = err (boundary "modal_call" "invalid_call_id")

unfoldable pub call_to_dict : ModalCall → Json
call_to_dict c = obj (
    field "call_id" (str c.call_id) (
      field "request" (request_to_dict c.request)
        (field "schema" (str "stpd/modal-call-v1") (field "target_id" (str c.target_id) end))))

module _ (rt : Runtime) where
  unfoldable pub target_id : ModalTarget → String
  unfolding target_to_dict
  target_id t = rt.semantic_hash (target_to_dict t)

  unfoldable pub call_decode : Json → Result ModalCall
  call_decode value = do
    o ← object_fields value ("call_id" ∷ "request" ∷ "schema" ∷ "target_id" ∷ []) "modal_call"
    schema ← item o "schema"
    expect_schema schema "stpd/modal-call-v1" "modal_call"
    target ← item o "target_id"
    r ← item o "request"
    request ← request_decode rt r
    call ← item o "call_id"
    t ← digest target "modal_call.target_id" 64
    c ← call_id_text call
    ok (record { target_id = t; request = request; call_id = c })
