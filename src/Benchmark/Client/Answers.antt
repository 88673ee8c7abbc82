-- ===== src/Benchmark/Client/Answers.antt =====
-- When a request of the client is answered, and which number a JSON value is read as.
use fingerprint_full_matcher.Prelude.{
  ℕ, String, true, false, some, ◌≡◌, ◌∙◌, ◌↔◌, ◌⊎◌, inl, inr, refl, ap, sym, leb, ◌<◌, Bool-cases,
  arith, leb→gt,
}
use fingerprint_full_matcher.Prelude.Int.{pos}
use fingerprint_full_matcher.Prelude.Result.{ok}
use fingerprint_full_matcher.Benchmark.Floats.{Floats}
use fingerprint_full_matcher.Benchmark.Json.{
  Json, null, bool, int, float, str, list, dict, Members, no_members, find,
}
use fingerprint_full_matcher.Benchmark.Client.{
  Caught, ClientState, Connection, Exchange, Body, empty, invalid, transport_failed, replied,
  parsed, Request, request_json, answered, read_body, decoded, checked_status, field, float_field,
}

pub gt→leb : (a b : ℕ) → b < a → leb a b ≡ false
gt→leb a b h = ground arith

pub field_iff :
    {F : Type 0} (raised : Caught) (key : String) (reply : Members F) (value : Json F)
    → (field raised key reply ≡ ok value) ↔ (find key reply ≡ some value)
unfolding field
field_iff raised key reply value = (λ h. ground arith, λ h. rw (field, h) refl)

module _ {C F : Type 0} (floats : Floats F) (repr : Json F → String)
    (connection : Connection C F) where
  -- What a number, a text or a truth value is as a float.
  pub Reads : Json F → F → Type 0
  Reads (float y) x = y ≡ x
  Reads (str s) x = floats.of_text s ≡ some x
  Reads (int z) x = floats.of_int z ≡ some x
  Reads (bool true) x = floats.of_int (pos 1) ≡ some x
  Reads (bool false) x = floats.of_int (pos 0) ≡ some x
  Reads other x = ⊥

  pub float_field-iff-Reads :
      (raised : Caught) (value : Json F) (x : F)
      → (float_field floats repr connection raised value ≡ ok x) ↔ Reads value x
  unfolding float_field Reads
  float_field-iff-Reads raised null x = (λ h. cc h, λ h. absurd h)
  float_field-iff-Reads raised (float y) x = (λ h. cc h, λ h. ap ok h)
  float_field-iff-Reads raised (str s) x = (λ h. ground arith, λ h. rw (float_field, h) refl)
  float_field-iff-Reads raised (int z) x = (λ h. ground arith, λ h. rw (float_field, h) refl)
  float_field-iff-Reads raised (bool true) x = (λ h. ground arith, λ h. rw (float_field, h) refl)
  float_field-iff-Reads raised (bool false) x = (λ h. ground arith, λ h. rw (float_field, h) refl)
  float_field-iff-Reads raised (list items) x = (λ h. cc h, λ h. absurd h)
  float_field-iff-Reads raised (dict carried) x = (λ h. cc h, λ h. absurd h)

  -- The client was open, its connection answered the request with a success whose body is an object or
  -- empty, and the client is open after it.
  pub record Answered (request : Request F) (s : ClientState C) (reply : Members F)
      (after : ClientState C) : Type 0 where
    pub open_before : s.closed ≡ false
    pub status : ℕ
    pub body : Body F
    pub replied_c : C
    pub exchanged : connection.exchange request s.connection ≡ (replied status body, replied_c)
    pub success : status < 400
    pub carried : (body ≡ parsed (dict reply)) ⊎ ((body ≡ empty) × (reply ≡ no_members))
    pub open_after : after ≡ record { closed = false; connection = replied_c }

  checked_status-ok :
      (status : ℕ) (carried reply : Members F)
      → checked_status floats repr connection status carried ≡ ok reply
      → (status < 400) × (carried ≡ reply)
  unfolding checked_status
  checked_status-ok status carried reply h = elim (Bool-cases (leb 400 status)) [
    | inl large ↦ ground arith
    | inr small ↦ (leb→gt 400 status small, ground arith)
  ]

  read_body-ok :
      (status : ℕ) (body : Body F) (reply : Members F)
      → read_body floats repr connection status body ≡ ok reply
      → (status < 400) × ((body ≡ parsed (dict reply)) ⊎ ((body ≡ empty) × (reply ≡ no_members)))
  unfolding read_body decoded
  read_body-ok status empty reply h =
      let (success, same) = checked_status-ok status no_members reply h in
      (success, inr (refl, sym same))
  read_body-ok status invalid reply h = cc h
  read_body-ok status (parsed (dict carried)) reply h =
      let (success, same) = checked_status-ok status carried reply h in
      (success, inl (ap (λ d. parsed (dict d)) same))
  read_body-ok status (parsed null) reply h = cc h
  read_body-ok status (parsed (bool b)) reply h = cc h
  read_body-ok status (parsed (int z)) reply h = cc h
  read_body-ok status (parsed (float x)) reply h = cc h
  read_body-ok status (parsed (str t)) reply h = cc h
  read_body-ok status (parsed (list items)) reply h = cc h

  answered-Answered :
      (request : Request F) (s : ClientState C) (reply : Members F) (after : ClientState C)
      (exchange : Exchange F) (c : C)
      → s.closed ≡ false
      → connection.exchange request s.connection ≡ (exchange, c)
      → answered floats repr connection exchange c ≡ (ok reply, after)
      → Answered request s reply after
  unfolding answered
  answered-Answered request s reply after (transport_failed message) c live asked h = cc h
  answered-Answered request s reply after (replied status body) c live asked h =
      let (success, carried) = read_body-ok status body reply (ap (λ r. r.0) h) in
      record {
        open_before = live;
        status = status;
        body = body;
        replied_c = c;
        exchanged = asked;
        success = success;
        carried = carried;
        open_after = sym (ap (λ r. r.1) h);
      }

  request_json_open :
      (request : Request F) (s : ClientState C)
      → s.closed ≡ false
      → request_json floats repr connection request s
        ≡ answered floats repr connection
            (connection.exchange request s.connection).0
            (connection.exchange request s.connection).1
  unfolding request_json
  request_json_open request s live = rw (live) refl

  request_json-Answered :
      (request : Request F) (s : ClientState C) (reply : Members F) (after : ClientState C)
      → request_json floats repr connection request s ≡ (ok reply, after)
      → Answered request s reply after
  unfolding request_json
  request_json-Answered request s reply after h = elim (Bool-cases s.closed) [
    | inl shut ↦ ground arith
    | inr live ↦
        answered-Answered request s reply after _ _ live refl
          (sym (request_json_open request s live) ∙ h)
  ]

  read_body-carried :
      (status : ℕ) (body : Body F) (reply : Members F)
      → leb 400 status ≡ false
      → (body ≡ parsed (dict reply)) ⊎ ((body ≡ empty) × (reply ≡ no_members))
      → read_body floats repr connection status body ≡ ok reply
  unfolding read_body decoded checked_status
  read_body-carried status body reply small (inl object) = rw (object) (rw (small) refl)
  read_body-carried status body reply small (inr (nothing, none_there)) =
      rw (nothing, none_there) (rw (small) refl)

  Answered-request_json :
      (request : Request F) (s : ClientState C) (reply : Members F) (after : ClientState C)
      → Answered request s reply after
      → request_json floats repr connection request s ≡ (ok reply, after)
  unfolding request_json answered
  Answered-request_json request s reply after a =
      rw (a.exchanged, a.open_before)
        (ap (λ r. (r, record { closed = false; connection = a.replied_c }))
            (read_body-carried a.status a.body reply (gt→leb 400 a.status a.success) a.carried)
          ∙ ap (λ t. (ok reply, t)) (sym a.open_after))

  -- A request returns the members of the body of the answer.
  pub request_json-iff-Answered :
      (request : Request F) (s : ClientState C) (reply : Members F) (after : ClientState C)
      → (request_json floats repr connection request s ≡ (ok reply, after))
        ↔ Answered request s reply after
  request_json-iff-Answered request s reply after =
      (request_json-Answered request s reply after, Answered-request_json request s reply after)
