-- ===== src/Errors.antt =====
-- errors/error.go, and the values of Go's type `error` that the program tells apart.
mod Tests
use Prim.Native.String.{◌++◌}
use veidemann_browser_contro.Prelude.{
  Bool, true, false, suc, ◌≡◌, refl, ◌⊎◌, inl, inr, String, ℤ, pos, negsuc, itoa_ℤ,
}

-- commonsV1.Error
pub record Error : Type 0 where
  pub code : ℤ
  pub msg : String
  pub detail : String

-- google.golang.org/grpc/codes, the ones in use.
pub data Code : Type 0 where
  deadline_exceeded_code canceled_code unknown_code not_found_code other_code : Code

pub data GoError : Type 0 where
  -- context.Canceled, context.DeadlineExceeded, io.EOF
  canceled deadline_exceeded eof : GoError
  -- *fetchError
  fetch_error : Error → GoError
  -- a gRPC status
  status_error : Code → String → GoError
  -- any other error, by its text
  other : String → GoError
  -- fmt.Errorf("…: %w", err)
  wrap : String → GoError → GoError

-- A call that returns a value, returns an error, or panics.
pub data Go {ℓ} (A : Type ℓ) : Type ℓ where
  ok : A → Go A
  fail : GoError → Go A
  panic : Go A

infixl 5 ◌>>=◌
abbrev pub ◌>>=◌ {ℓ κ} : {A : Type ℓ} {B : Type κ} → Go A → (A → Go B) → Go B
ok a >>= f = f a
fail e >>= f = fail e
panic >>= f = panic

-- `if err != nil { return fmt.Errorf("text: %w", err) }`
abbrev pub wrapping {ℓ} : {A : Type ℓ} → String → Go A → Go A
wrapping text (ok a) = ok a
wrapping text (fail e) = fail (wrap text e)
wrapping text panic = panic

-- New
unfoldable pub new_fetch_error : ℤ → String → String → GoError
new_fetch_error code msg detail = fetch_error (record { code = code; msg = msg; detail = detail })

-- (*fetchError).Error
unfoldable pub fetch_error_text : Error → String
unfolding itoa_ℤ
fetch_error_text e = itoa_ℤ e.code ++ (" " ++ (e.msg ++ (": " ++ e.detail)))

-- Error() of a status is that of the package grpc/status.
unfoldable pub error_text : (Code → String → String) → GoError → String
unfolding fetch_error_text
error_text status_text canceled = "context canceled"
error_text status_text deadline_exceeded = "context deadline exceeded"
error_text status_text eof = "EOF"
error_text status_text (fetch_error e) = fetch_error_text e
error_text status_text (status_error c s) = status_text c s
error_text status_text (other s) = s
error_text status_text (wrap s e) = s ++ (": " ++ error_text status_text e)

-- CommonsError
unfoldable pub commons_error : (Code → String → String) → GoError → Error
commons_error status_text (fetch_error e) = e
commons_error status_text e = record {
  code = negsuc 4;
  msg = "Runtime exception";
  detail = error_text status_text e;
}

-- To split on the result of a call and keep the equation.
pub Go-cases {ℓ} :
    {A : Type ℓ} (r : Go A)
    → ((a : A) × (r ≡ ok a)) ⊎ (((e : GoError) × (r ≡ fail e)) ⊎ (r ≡ panic))
Go-cases (ok a) = inl (a, refl)
Go-cases (fail e) = inr (inl (e, refl))
Go-cases panic = inr (inr refl)

pub ok_inj {ℓ} : {A : Type ℓ} {a b : A} → ok a ≡ ok b → a ≡ b
ok_inj e = cc

pub bind-ok {ℓ κ} :
    {A : Type ℓ} {B : Type κ} (r : Go A) (f : A → Go B) (b : B)
    → (r >>= f) ≡ ok b
    → (a : A) × (r ≡ ok a) × (f a ≡ ok b)
bind-ok (ok a) f b e = (a, refl, e)
bind-ok (fail x) f b e = cc
bind-ok panic f b e = cc

-- errors.Is(err, context.DeadlineExceeded)
unfoldable pub wraps_deadline : GoError → Bool
wraps_deadline deadline_exceeded = true
wraps_deadline (wrap s e) = wraps_deadline e
wraps_deadline _ = false

-- `fmt.Errorf("text: %v", err)`, which keeps only the text of the error.
unfoldable pub described : {A : Type 0} → (Code → String → String) → String → Go A → Go A
described status_text text (ok a) = ok a
described status_text text (fail e) = fail (other ((text ++ ": " ++ (error_text status_text e))))
described status_text text panic = panic
