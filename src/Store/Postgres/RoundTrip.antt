-- ===== src/Store/Postgres/RoundTrip.antt =====
-- What the statements of backend/internal/repository/postgres.go write is what its scans read: the
-- order of the columns in INSERT, SELECT and `Scan`, and the columns that may be NULL.
use wi_fi_man.Common.{
  List, [], ◌∷◌, Option, none, some, ◌≡◌, refl, sym, Text, false, is_empty, if◌then◌else◌, inl, inr,
  arith, ◌==◌, bytes,
}
use wi_fi_man.Common.Dict
use wi_fi_man.Common.Exec.{ok, Result-cases}
use wi_fi_man.Domain.{
  Time, TokenStatus, SessionStatus, PaymentStatus, Fields, Plan, Token, Session, Payment,
}
use wi_fi_man.Store.Sql.{Value, text, timestamp}
use wi_fi_man.Store.Sql.Answer.{project, overwrite}
use wi_fi_man.Store.Postgres.Scan.{
  token_status_text, session_status_text, payment_status_text, token_status_of, session_status_of,
  payment_status_of, text_ptr, time_ptr, scan_text_ptr, scan_time_ptr, scan_row, scan_bytes,
  scan_status, scan_text,
}
use wi_fi_man.Store.Postgres.Plans.{plan_columns, plan_arguments, scan_plan}
use wi_fi_man.Store.Postgres.Tokens.{token_columns, token_arguments, token_changes, scan_token}
use wi_fi_man.Store.Postgres.Sessions.{session_columns, session_arguments, scan_session}
use wi_fi_man.Store.Postgres.Payments.{
  Codec, metadata_argument, payment_columns, payment_arguments, scan_payment,
}

pub scan_status-token :
    (s : TokenStatus) (vs : List Value)
    → scan_status token_status_of (text (token_status_text s) ∷ vs) ≡ (ok s, vs)
unfolding scan_status scan_text token_status_of token_status_text ◌==◌ bytes
scan_status-token TokenStatus.created vs = refl
scan_status-token TokenStatus.unused vs = refl
scan_status-token TokenStatus.active vs = refl
scan_status-token TokenStatus.expired vs = refl
scan_status-token TokenStatus.consumed vs = refl
scan_status-token TokenStatus.revoked vs = refl

pub scan_status-session :
    (s : SessionStatus) (vs : List Value)
    → scan_status session_status_of (text (session_status_text s) ∷ vs) ≡ (ok s, vs)
unfolding scan_status scan_text session_status_of session_status_text ◌==◌ bytes
scan_status-session SessionStatus.active vs = refl
scan_status-session SessionStatus.ended vs = refl

pub scan_status-payment :
    (s : PaymentStatus) (vs : List Value)
    → scan_status payment_status_of (text (payment_status_text s) ∷ vs) ≡ (ok s, vs)
unfolding scan_status scan_text payment_status_of payment_status_text ◌==◌ bytes
scan_status-payment PaymentStatus.pending vs = refl
scan_status-payment PaymentStatus.paid vs = refl
scan_status-payment PaymentStatus.failed vs = refl

pub scan_text_ptr-text_ptr :
    (o : Option Text) (vs : List Value) → scan_text_ptr (text_ptr o ∷ vs) ≡ (ok o, vs)
unfolding scan_text_ptr
scan_text_ptr-text_ptr none vs = refl
scan_text_ptr-text_ptr (some t) vs = refl

pub scan_time_ptr-time_ptr :
    (o : Option Time) (vs : List Value) → scan_time_ptr (time_ptr o ∷ vs) ≡ (ok o, vs)
unfolding scan_time_ptr
scan_time_ptr-time_ptr none vs = refl
scan_time_ptr-time_ptr (some t) vs = refl

pub scan_plan-project :
    (p : Plan) → scan_row scan_plan (project plan_columns (plan_arguments p)) ≡ ok p
unfolding scan_row scan_plan Dict.get ◌==◌ bytes
scan_plan-project p = refl

pub scan_token-project :
    (t : Token) → scan_row scan_token (project token_columns (token_arguments t)) ≡ ok t
unfolding scan_row scan_token Dict.get ◌==◌ bytes
scan_token-project t = rw (
  scan_status-token t.status,
  scan_time_ptr-time_ptr t.activated_at,
  scan_time_ptr-time_ptr t.expires_at,
  scan_text_ptr-text_ptr t.used_by_device_mac,
  scan_text_ptr-text_ptr t.payment_id,
  scan_text_ptr-text_ptr t.sold_by_agent_id,
)

-- After an UPDATE the row reads as the new token, created when it was.
pub scan_token-overwrite :
    (t u : Token)
    → u.id ≡ t.id
    → scan_row scan_token (project token_columns (overwrite (token_arguments t) (token_changes u)))
      ≡ ok (record u { created_at = t.created_at })
unfolding scan_row scan_token overwrite Dict.get Dict.put ◌==◌ bytes
scan_token-overwrite t u same = rw (
  scan_status-token u.status,
  scan_time_ptr-time_ptr u.activated_at,
  scan_time_ptr-time_ptr u.expires_at,
  scan_text_ptr-text_ptr u.used_by_device_mac,
  scan_text_ptr-text_ptr u.payment_id,
  scan_text_ptr-text_ptr u.sold_by_agent_id,
  sym same,
)

pub scan_session-project :
    (s : Session) → scan_row scan_session (project session_columns (session_arguments s)) ≡ ok s
unfolding scan_row scan_session Dict.get ◌==◌ bytes
scan_session-project s = rw (scan_time_ptr-time_ptr s.ended_at, scan_status-session s.status)

-- What `json.Marshal` wrote, `json.Unmarshal` reads, and it is not empty.
abbrev pub IsInverse : Codec → Type 0
IsInverse codec =
    (fields : Fields) (t : Text)
    → codec.marshal fields ≡ ok t
    → (is_empty t ≡ false) × (codec.unmarshal t ≡ some fields)

scan_metadata :
    (codec : Codec) (o : Option Fields) (m : Value) (vs : List Value)
    → IsInverse codec
    → metadata_argument codec o ≡ ok m
    → (t : Text) × (scan_bytes (m ∷ vs) ≡ (ok t, vs))
      × ((if is_empty t then none else codec.unmarshal t) ≡ o)
unfolding scan_bytes metadata_argument
scan_metadata codec none m vs inverse h = ([], ground arith, refl)
scan_metadata codec (some fields) m vs inverse h = elim (Result-cases (codec.marshal fields)) [
  | inl (t, e) ↦ let (full, back) = inverse fields t e in (t, ground arith, rw (full, back))
  | inr (x, e) ↦ absurd (ground arith)
]

pub scan_payment-project :
    (codec : Codec) (p : Payment) (m : Value)
    → IsInverse codec
    → metadata_argument codec p.metadata ≡ ok m
    → scan_row (scan_payment codec) (project payment_columns (payment_arguments p m)) ≡ ok p
unfolding scan_row scan_payment Dict.get ◌==◌ bytes
scan_payment-project codec p m inverse h =
    let (t, read, back) =
      scan_metadata codec p.metadata m (timestamp p.created_at ∷ timestamp p.updated_at ∷ [])
        inverse h in
    rw (scan_status-payment p.status, read, back)
