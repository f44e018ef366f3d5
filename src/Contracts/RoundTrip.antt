-- ===== src/Contracts/RoundTrip.antt =====
-- A document that is made of a request, a receipt or a producer decodes to what it was made of.
use sts2_the_perfect_defect.Prelude.{
  ℕ, ◌≡◌, refl, ap, String, Option, none, some, List, [], ◌∷◌, ◌==◌, string_eq, Bool-cases, inl,
  inr,
}
use sts2_the_perfect_defect.Prelude.Result.{
  Result, ok, ◌>>=◌, >>=-eq-ok, ok-injective, Ensures, Ensures-ok, Ensures-guard, Ensures-bind,
}
use sts2_the_perfect_defect.Boundary.Json.{Json, null, flag, num, other_number, str, arr, obj}
use sts2_the_perfect_defect.Boundary.Checks.{
  text, check_text, digest, check_digest, unsigned, object_fields, item,
}
use sts2_the_perfect_defect.Contracts.Runtime.{Runtime}
use sts2_the_perfect_defect.Contracts.Producer.{
  Producer, producer_init, producer_decode, producer_to_dict,
}
use sts2_the_perfect_defect.Contracts.Request.{
  ComputeRequest, member_of, optional, request_init, request_decode, request_to_dict, expect_schema,
  opt_str, opt_num,
}
use sts2_the_perfect_defect.Contracts.Receipt.{
  ComputeReceipt, receipt_init, receipt_decode, receipt_to_dict,
}

-- What a check accepts is the text that it returns.
text-str : (j : Json) (stage : String) (n : ℕ) (s : String) → text j stage n ≡ ok s → j ≡ str s
unfolding text
text-str (str t) stage n s h =
    let (u, _, e) = >>=-eq-ok (check_text t stage n) _ h in ap str (ok-injective e)
text-str null stage n s h = absurd (cc h)
text-str (flag b) stage n s h = absurd (cc h)
text-str (num m) stage n s h = absurd (cc h)
text-str (other_number m) stage n s h = absurd (cc h)
text-str (arr a) stage n s h = absurd (cc h)
text-str (obj o) stage n s h = absurd (cc h)

digest-str : (j : Json) (stage : String) (n : ℕ) (s : String) → digest j stage n ≡ ok s → j ≡ str s
unfolding digest
digest-str (str t) stage n s h =
    let (u, _, e) = >>=-eq-ok (check_digest t stage n) _ h in ap str (ok-injective e)
digest-str null stage n s h = absurd (cc h)
digest-str (flag b) stage n s h = absurd (cc h)
digest-str (num m) stage n s h = absurd (cc h)
digest-str (other_number m) stage n s h = absurd (cc h)
digest-str (arr a) stage n s h = absurd (cc h)
digest-str (obj o) stage n s h = absurd (cc h)

pub unsigned-num : (j : Json) (stage : String) (n : ℕ) → unsigned j stage ≡ ok n → j ≡ num n
unfolding unsigned
unsigned-num (num m) stage n h = ap num (ok-injective h)
unsigned-num (str t) stage n h = absurd (cc h)
unsigned-num null stage n h = absurd (cc h)
unsigned-num (flag b) stage n h = absurd (cc h)
unsigned-num (other_number m) stage n h = absurd (cc h)
unsigned-num (arr a) stage n h = absurd (cc h)
unsigned-num (obj o) stage n h = absurd (cc h)

member_of-str :
    (j : Json) (ns : List String) (stage code s : String)
    → member_of j ns stage code ≡ ok s
    → j ≡ str s
unfolding member_of
member_of-str (str t) [] stage code s h = absurd (cc h)
member_of-str (str t) (n ∷ ns) stage code s h = elim (Bool-cases (t == n)) [
  | inl e ↦ let same : ok t ≡ ok s = rw e at h in ap str (ok-injective same)
  | inr e ↦ member_of-str (str t) ns stage code s (rw e at h)
]
member_of-str null ns stage code s h = absurd (cc h)
member_of-str (flag b) ns stage code s h = absurd (cc h)
member_of-str (num m) ns stage code s h = absurd (cc h)
member_of-str (other_number m) ns stage code s h = absurd (cc h)
member_of-str (arr a) ns stage code s h = absurd (cc h)
member_of-str (obj o) ns stage code s h = absurd (cc h)

some_of :
    {A : Type 0} (check : Json → Result A) (write : A → Json) (j : Json) (o : Option A)
    → ((a : A) → check j ≡ ok a → j ≡ write a)
    → (check j >>= λ a. ok (some a)) ≡ ok o
    → j ≡ elim o [ none ↦ null | some a ↦ write a ]
some_of check write j o reads h =
    let (a, found, e) = >>=-eq-ok (check j) _ h in
    let same : some a ≡ o = ok-injective e in rw (← same) (reads a found)

optional-write :
    {A : Type 0} (check : Json → Result A) (write : A → Json) (j : Json) (o : Option A)
    → ((a : A) → check j ≡ ok a → j ≡ write a)
    → optional check j ≡ ok o
    → j ≡ elim o [ none ↦ null | some a ↦ write a ]
unfolding optional
optional-write check write null o reads h = rw (← ok-injective h) refl
optional-write check write (str t) o reads h = some_of check write (str t) o reads h
optional-write check write (flag b) o reads h = some_of check write (flag b) o reads h
optional-write check write (num m) o reads h = some_of check write (num m) o reads h
optional-write check write (other_number m) o reads h =
    some_of check write (other_number m) o reads h
optional-write check write (arr a) o reads h = some_of check write (arr a) o reads h
optional-write check write (obj f) o reads h = some_of check write (obj f) o reads h

-- A producer that its constructor accepts from a repository, a revision and a lock digest
abbrev pub IsProducer : Runtime → Producer → Type 0
IsProducer rt p =
    producer_init rt (str p.repository) (str p.source_revision) (str p.uv_lock_sha256) ≡ ok p

producer_written :
    (rt : Runtime) (a b c : Json)
    → Ensures
        (λ (p : Producer).
          (a ≡ str p.repository) × (b ≡ str p.source_revision) × (c ≡ str p.uv_lock_sha256))
        (producer_init rt a b c)
unfolding producer_init
producer_written rt a b c = Ensures-bind _ _ λ r er. Ensures-bind _ _ λ v ev.
    Ensures-bind _ _ λ l el.
      Ensures-bind _ _
        λ _ _. Ensures-ok _ (text-str a _ _ r er, digest-str b _ _ v ev, digest-str c _ _ l el)

pub producer_init-IsProducer :
    (rt : Runtime) (a b c : Json) (p : Producer) → producer_init rt a b c ≡ ok p → IsProducer rt p
producer_init-IsProducer rt a b c p h =
    let (ea, eb, ec) = (producer_written rt a b c).holds p h in rw (← ea, ← eb, ← ec) h

module _ (rt : Runtime) where
  producer_decode-producer_to_dict :
      (p : Producer) → IsProducer rt p → producer_decode rt (producer_to_dict p) ≡ ok p
  unfolding producer_decode producer_to_dict object_fields item ◌>>=◌
  producer_decode-producer_to_dict p h = h

  request_written :
      (kind input : Json) (p : Producer) (attempt resume stop : Json)
      → Ensures
          (λ (r : ComputeRequest).
            (kind ≡ str r.kind)
            × (input ≡ str r.input_id)
            × (p ≡ r.producer)
            × (attempt ≡ str r.attempt_id)
            × (resume ≡ opt_str r.resume)
            × (stop ≡ opt_num r.stop_after))
          (request_init kind input p attempt resume stop)
  unfolding request_init
  request_written kind input p attempt resume stop = Ensures-bind _ _ λ k ek.
      Ensures-bind _ _ λ i ei. Ensures-bind _ _ λ a ea. Ensures-bind _ _ λ r er.
        Ensures-bind _ _ λ s es. Ensures-guard _ _ _ λ _. Ensures-guard _ _ _ λ _. Ensures-ok _ (
          member_of-str kind _ _ _ k ek,
          digest-str input _ _ i ei,
          refl,
          text-str attempt _ _ a ea,
          optional-write _ str resume r (λ v. digest-str resume _ _ v) er,
          optional-write _ num stop s (λ v. unsigned-num stop _ v) es,
        )

  -- A request that its constructor accepts, with a producer that its own accepts, is written to a
  -- document that decodes to the same request.
  pub request_decode-request_to_dict :
      (kind input : Json) (attempt resume stop : Json) (r : ComputeRequest)
      → IsProducer rt r.producer
      → request_init kind input r.producer attempt resume stop ≡ ok r
      → request_decode rt (request_to_dict r) ≡ ok r
  unfolding request_decode request_to_dict object_fields item expect_schema ◌>>=◌
  request_decode-request_to_dict kind input attempt resume stop r producer h =
      let (k, i, _, a, s, t) =
        (request_written kind input r.producer attempt resume stop).holds r h in
      rw (producer_decode-producer_to_dict r.producer producer) (rw (← k, ← i, ← a, ← s, ← t) h)

  receipt_written :
      (q a kind input : Json) (p : Producer) (state output checkpoint : Json)
      → Ensures
          (λ (c : ComputeReceipt).
            (q ≡ str c.request_id)
            × (a ≡ str c.attempt_id)
            × (kind ≡ str c.kind)
            × (input ≡ str c.input_id)
            × (state ≡ str c.state)
            × (output ≡ opt_str c.output_id)
            × (checkpoint ≡ opt_str c.checkpoint_id))
          (receipt_init q a kind input p state output checkpoint)
  unfolding receipt_init
  receipt_written q a kind input p state output checkpoint = Ensures-bind _ _ λ i ei.
      Ensures-bind _ _ λ r er. Ensures-bind _ _ λ s es. Ensures-bind _ _ λ o eo.
        Ensures-bind _ _ λ c ec. Ensures-guard _ _ _ λ _. Ensures-guard _ _ _ λ _.
          Ensures-guard _ _ _ λ _.
            let (k, n, _, t, _, _) = (request_written kind input p a null null).holds r er in
            Ensures-ok _ (
              digest-str q _ _ i ei,
              t,
              k,
              n,
              member_of-str state _ _ _ s es,
              optional-write _ str output o (λ v. digest-str output _ _ v) eo,
              optional-write _ str checkpoint c (λ v. digest-str checkpoint _ _ v) ec,
            )

  -- A receipt that its constructor accepts, with a producer that its own accepts, is written to a
  -- document that decodes to the same receipt.
  pub receipt_decode-receipt_to_dict :
      (q a kind input state output checkpoint : Json) (c : ComputeReceipt)
      → IsProducer rt c.producer
      → receipt_init q a kind input c.producer state output checkpoint ≡ ok c
      → receipt_decode rt (receipt_to_dict c) ≡ ok c
  unfolding receipt_decode receipt_to_dict object_fields item expect_schema ◌>>=◌
  receipt_decode-receipt_to_dict q a kind input state output checkpoint c producer h =
      let (e1, e2, e3, e4, e5, e6, e7) =
        (receipt_written q a kind input c.producer state output checkpoint).holds c h in
      rw (producer_decode-producer_to_dict c.producer producer)
        (rw (← e1, ← e2, ← e3, ← e4, ← e5, ← e6, ← e7) h)
