-- ===== src/Rpc/Answers.antt =====
-- internal/rpc/protocol.go: the server's error responses under the client's checks.
use tui_box.Prelude.{
  ◌≡◌, ◌≢◌, ◌⊎◌, inl, inr, refl, ap, subst, Option-cases, Bool, true, false, ◌||◌, some, Bytes,
  same, same_refl, if_both, arith,
}
use tui_box.Latency.Result.{ContextErr}
use tui_box.Rpc.Codes.{
  RpcErr, Code, Cause, is_context, code_for_error, message_for_code, error_for_code, error_text,
}
use tui_box.Rpc.Messages.{
  valid_request_id, response_for_error, valid_error, valid_failure, valid_response,
}

-- What the client's error tells of the server's.
abbrev pub Tells : Cause → RpcErr → Type 0
Tells c RpcErr.internal =
    (c.is RpcErr.internal ≡ true)
    ⊎ ((e : RpcErr) → e ≢ RpcErr.internal → e ≢ RpcErr.invalid_response → c.is e ≡ false)
Tells c RpcErr.timeout = (c.is RpcErr.timeout ≡ true) ⊎ ((x : ContextErr) × (c.of_context ≡ some x))
Tells c RpcErr.invalid_response = ⊥
Tells c e = c.is e ≡ true

abbrev Told : Cause → Code → Type 0
Told c x = Tells c (error_for_code x)

none_left :
    (c : Cause)
    → c.is RpcErr.unsupported_version ≡ false
    → c.is RpcErr.invalid_request ≡ false
    → c.is RpcErr.access_denied ≡ false
    → c.is RpcErr.core_validation ≡ false
    → c.is RpcErr.rollback_failure ≡ false
    → c.is RpcErr.process_stuck ≡ false
    → c.is RpcErr.process_failure ≡ false
    → c.is RpcErr.unavailable ≡ false
    → c.is RpcErr.timeout ≡ false
    → (e : RpcErr) → e ≢ RpcErr.internal
    → e ≢ RpcErr.invalid_response
    → c.is e ≡ false
none_left c h1 h2 h3 h4 h5 h6 h7 h8 h9 RpcErr.unsupported_version i r = h1
none_left c h1 h2 h3 h4 h5 h6 h7 h8 h9 RpcErr.invalid_request i r = h2
none_left c h1 h2 h3 h4 h5 h6 h7 h8 h9 RpcErr.access_denied i r = h3
none_left c h1 h2 h3 h4 h5 h6 h7 h8 h9 RpcErr.core_validation i r = h4
none_left c h1 h2 h3 h4 h5 h6 h7 h8 h9 RpcErr.rollback_failure i r = h5
none_left c h1 h2 h3 h4 h5 h6 h7 h8 h9 RpcErr.process_stuck i r = h6
none_left c h1 h2 h3 h4 h5 h6 h7 h8 h9 RpcErr.process_failure i r = h7
none_left c h1 h2 h3 h4 h5 h6 h7 h8 h9 RpcErr.unavailable i r = h8
none_left c h1 h2 h3 h4 h5 h6 h7 h8 h9 RpcErr.timeout i r = h9
none_left c h1 h2 h3 h4 h5 h6 h7 h8 h9 RpcErr.internal i r = absurd (i refl)
none_left c h1 h2 h3 h4 h5 h6 h7 h8 h9 RpcErr.invalid_response i r = absurd (r refl)

timed_out :
    (c : Cause) → (c.is RpcErr.timeout || is_context c.of_context) ≡ true → Tells c RpcErr.timeout
timed_out c h = elim (Option-cases c.of_context) [
  | inr (x, e) ↦ inr (x, e)
  | inl nothing ↦ inl (or_left (c.is RpcErr.timeout) _ h (ap is_context nothing))
]
  where
    or_left : (a b : Bool) → (a || b) ≡ true → b ≡ false → a ≡ true
    or_left a b h e = ground arith

code_for_error-Told : (c : Cause) → Told c (code_for_error c)
unfolding code_for_error error_for_code
code_for_error-Told c =
    if_both (Told c) (c.is RpcErr.unsupported_version) (λ h. h)
      (λ h1.
        if_both (Told c) (c.is RpcErr.invalid_request) (λ h. h)
          (λ h2.
            if_both (Told c) (c.is RpcErr.access_denied) (λ h. h)
              (λ h3.
                if_both (Told c) (c.is RpcErr.core_validation) (λ h. h)
                  (λ h4.
                    if_both (Told c) (c.is RpcErr.rollback_failure) (λ h. h)
                      (λ h5.
                        if_both (Told c) (c.is RpcErr.process_stuck) (λ h. h)
                          (λ h6.
                            if_both (Told c) (c.is RpcErr.process_failure) (λ h. h)
                              (λ h7.
                                if_both (Told c) (c.is RpcErr.unavailable) (λ h. h)
                                  (λ h8.
                                    if_both (Told c)
                                      (c.is RpcErr.timeout || is_context c.of_context) (timed_out c)
                                      (λ h9. inr (
                                        none_left c h1 h2 h3 h4 h5 h6 h7 h8 (ground arith)))))))))))

accepted_error :
    (x : Code)
    → error_for_code x ≢ RpcErr.invalid_response
    → valid_error (record { code = x; message = message_for_code x }) ≡ true
unfolding valid_error message_for_code error_for_code error_text same
accepted_error (Code.other s) h = absurd (h refl)
accepted_error Code.invalid_request h = refl
accepted_error Code.unsupported_version h = refl
accepted_error Code.access_denied h = refl
accepted_error Code.core_validation h = refl
accepted_error Code.process_failure h = refl
accepted_error Code.process_stuck h = refl
accepted_error Code.rollback_failure h = refl
accepted_error Code.unavailable h = refl
accepted_error Code.timeout h = refl
accepted_error Code.internal h = refl

Told-response : (c : Cause) (x : Code) → Told c x → error_for_code x ≢ RpcErr.invalid_response
Told-response c x h e = subst (Tells c) e h

-- For every error and every valid request ID: the client accepts the server's error response, and
-- the error that the client makes of its code is one that errors.Is finds in the server's error; or
-- it is ErrTimeout for an error of a context; or it is ErrInternal for an error in which errors.Is
-- finds none of the package's errors but ErrInvalidResponse.
pub error_response-Tells :
    (id : Bytes) (c : Cause)
    → valid_request_id id ≡ true
    → (valid_response (response_for_error id c) id ≡ true)
      × Tells c (error_for_code (code_for_error c))
unfolding valid_response valid_failure response_for_error
error_response-Tells id c v =
    let told = code_for_error-Told c in
    (
      rw (v, same_refl id)
          (accepted_error (code_for_error c) (Told-response c (code_for_error c) told)),
      told,
    )
