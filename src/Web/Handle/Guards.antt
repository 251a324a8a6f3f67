-- ===== src/Web/Handle/Guards.antt =====
-- What a request must carry before rust/src/web.rs lets it reach the actor.
use jbl_aura_play_together.Web.Handle.Token.{HasToken, valid_csrf-HasToken}
use jbl_aura_play_together.Base.{
  ℕ, ◌≡◌, ◌∙◌, sym, refl, ◌⊎◌, inl, inr, arith, Bool, true, not, ltb, Option, none, some, List,
  codes, same, same_eq, ok, Option-cases, Result-cases, Bool-cases, if◌then◌else◌,
}
use jbl_aura_play_together.Web.Request.{
  Method, get_method, post_method, other_method, RequestError, ParsedRequest, single_header,
  max_body_bytes, parse_request,
}
use jbl_aura_play_together.Web.Authority.{LoopbackAuthority, parse, origin_is_same}
use jbl_aura_play_together.Web.Handle.{
  WebMutation, start, stop, recover_stop, WebActor, Json, MutationBody, empty_object,
  recover_stop_confirmation, WebSecurity, HttpResponse, body_matches, is_text, is_some, valid_csrf,
  expected_revision, apply_mutation, mutation_refused, mutation_response, route_get, route_post,
  route, request_refused, handle,
}

Method-cases : (m : Method) → (m ≡ get_method) ⊎ (m ≡ post_method) ⊎ (m ≡ other_method)
Method-cases get_method = inl refl
Method-cases post_method = inr (inl refl)
Method-cases other_method = inr (inr refl)

-- Where each mutation is served, and with which body.
abbrev pub target_of : WebMutation → List ℕ
target_of start = codes "/api/start"
target_of stop = codes "/api/stop"
target_of recover_stop = codes "/internal/recover-stop"

abbrev pub body_of : WebMutation → MutationBody
body_of start = empty_object
body_of stop = empty_object
body_of recover_stop = recover_stop_confirmation

-- A host on the loopback at the port, and, where it must have one, an origin that is the same.
pub record IsLocal (security : WebSecurity) (request : ParsedRequest) : Type 0 where
  pub host : List ℕ
  pub host_header : single_header (codes "host") request ≡ some host
  pub authority : LoopbackAuthority
  pub loopback : parse host security.port ≡ some authority
  pub same_origin :
      (origin : List ℕ)
      → single_header (codes "origin") request ≡ some origin
      → origin_is_same origin authority ≡ true

-- A request that is admitted to one mutation at one revision.
pub record Admitted {V O : Type 0} (json : Json V O) (security : WebSecurity) (raw : List ℕ)
    (mutation : WebMutation) (revision : ℕ) : Type 0 where
  pub request : ParsedRequest
  pub parsed : parse_request raw ≡ ok request
  pub posted : request.method ≡ post_method
  pub target : request.target ≡ target_of mutation
  pub local : IsLocal security request
  pub origin : is_some (single_header (codes "origin") request) ≡ true
  pub json_type :
      is_text (single_header (codes "content-type") request) (codes "application/json") ≡ true
  pub body : body_matches json (body_of mutation) request.body ≡ true
  pub token : HasToken security request
  pub expected : expected_revision request ≡ some revision

some-none : {A : Type 0} (a : A) → ¬ (some a ≡ none)
some-none a e = ground arith

-- The tests of a mutation, in their order.
all_pass :
    (a b c d : Bool) (content_length : Option ℕ)
    → (if not a
        then some RequestError.forbidden_origin
        else if not b
        then some RequestError.unsupported_media_type
        else elim content_length as (λ _. Option RequestError) [
          | none ↦ some RequestError.length_required
          | some n ↦
              if ltb max_body_bytes n
              then some RequestError.payload_too_large
              else if not c
              then some RequestError.invalid_json_body
              else if not d
              then some RequestError.csrf_rejected
              else none
        ])
      ≡ none
    → (a ≡ true) × (b ≡ true) × (c ≡ true) × (d ≡ true)
all_pass a b c d content_length h = ground arith

module _ {A V O : Type 0} (actor_ops : WebActor A) (json : Json V O) (security : WebSecurity) where
  request_refused-IsLocal :
      (request : ParsedRequest)
      → request_refused actor_ops json security request ≡ none
      → IsLocal security request
  unfolding request_refused
  request_refused-IsLocal request h = elim (Option-cases (single_header (codes "host") request)) [
    | inl n ↦
        absurd (some-none RequestError.forbidden_host (sym (rw (request_refused, n) refl) ∙ h))
    | inr (host, a) ↦ elim (Option-cases (parse host security.port)) [
      | inl n ↦
          absurd (some-none RequestError.forbidden_host (sym (rw (request_refused, a, n) refl) ∙ h))
      | inr (authority, p) ↦ record {
        host = host;
        host_header = a;
        authority = authority;
        loopback = p;
        same_origin = λ origin o. elim (Bool-cases (origin_is_same origin authority)) [
          | inl t ↦ t
          | inr f ↦ absurd (
              some-none RequestError.forbidden_origin
                (sym (rw (request_refused, a, p, o, f) refl) ∙ h))
        ];
      }
    ]
  ]

  mutation_admitted :
      (request : ParsedRequest) (rule : MutationBody)
      → mutation_refused actor_ops json security request rule ≡ none
      → (is_some (single_header (codes "origin") request) ≡ true)
        × (is_text (single_header (codes "content-type") request) (codes "application/json") ≡ true)
        × (body_matches json rule request.body ≡ true)
        × (valid_csrf security request ≡ true)
  unfolding mutation_refused
  mutation_admitted request rule h =
      all_pass (is_some (single_header (codes "origin") request))
        (is_text (single_header (codes "content-type") request) (codes "application/json"))
        (body_matches json rule request.body) (valid_csrf security request) request.content_length h

  -- What a mutation's answer leaves of the actor.
  mutation_outcome :
      (request : ParsedRequest) (mutation : WebMutation) (rule : MutationBody) (actor : A)
      → ((mutation_response actor_ops json security request mutation rule actor).1 ≡ actor)
        ⊎ ((revision : ℕ) × (mutation_refused actor_ops json security request rule ≡ none)
            × (expected_revision request ≡ some revision)
            × (mutation_response actor_ops json security request mutation rule actor
                ≡ apply_mutation actor_ops json security mutation revision actor))
  unfolding mutation_response
  mutation_outcome request mutation rule actor =
      elim (Option-cases (mutation_refused actor_ops json security request rule)) [
        | inr (error, e) ↦ inl (rw (mutation_response, e) refl)
        | inl e ↦ elim (Option-cases (expected_revision request)) [
          | inl n ↦ inl (rw (mutation_response, e, n) refl)
          | inr (revision, r) ↦ inr (revision, e, r, rw (mutation_response, e, r) refl)
        ]
      ]

  -- What a request may do to the actor: nothing, a status read, or one admitted mutation.
  abbrev pub Outcome : List ℕ → A → HttpResponse × A → Type 0
  Outcome raw actor answer =
      (answer.1 ≡ actor)
      ⊎ (answer.1 ≡ (actor_ops.status actor).1)
      ⊎ ((mutation : WebMutation) × (revision : ℕ) × Admitted json security raw mutation revision
          × (answer ≡ apply_mutation actor_ops json security mutation revision actor))

  mutation_response-Outcome :
      (raw : List ℕ) (request : ParsedRequest) (mutation : WebMutation) (actor : A)
      → parse_request raw ≡ ok request
      → IsLocal security request
      → request.method ≡ post_method
      → request.target ≡ target_of mutation
      → Outcome raw actor
          (mutation_response actor_ops json security request mutation (body_of mutation) actor)
  mutation_response-Outcome raw request mutation actor parsed local posted target =
      elim (mutation_outcome request mutation (body_of mutation) actor) [
        | inl kept ↦ inl kept
        | inr (revision, e, r, answer) ↦
            let (origin, type_is, body, token) = mutation_admitted request (body_of mutation) e in
            inr (
              inr (
                mutation,
                revision,
                record {
                  request = request;
                  parsed = parsed;
                  posted = posted;
                  target = target;
                  local = local;
                  origin = origin;
                  json_type = type_is;
                  body = body;
                  token = valid_csrf-HasToken security request token;
                  expected = r;
                },
                answer,
              ))
      ]

  route_get-Outcome :
      (raw target : List ℕ) (actor : A)
      → Outcome raw actor (route_get actor_ops json security target actor)
  unfolding route_get
  route_get-Outcome raw target actor = elim (Bool-cases (same target (codes "/"))) [
    | inl t ↦ inl (rw (route_get, t) refl)
    | inr f ↦ elim (Bool-cases (same target (codes "/api/status"))) [
      | inl t ↦ inr (inl (rw (route_get, f, t) refl))
      | inr g ↦ elim (Bool-cases (same target (codes "/healthz"))) [
        | inl t ↦ inl (rw (route_get, f, g, t) refl)
        | inr k ↦ inl (rw (route_get, f, g, k) refl)
      ]
    ]
  ]

  route_post-Outcome :
      (raw : List ℕ) (request : ParsedRequest) (actor : A)
      → parse_request raw ≡ ok request
      → IsLocal security request
      → request.method ≡ post_method
      → Outcome raw actor (route_post actor_ops json security request actor)
  unfolding route_post
  route_post-Outcome raw request actor parsed local posted =
      elim (Bool-cases (same request.target (codes "/api/start"))) [
        | inl t ↦
            rw (route_post, t)
              (mutation_response-Outcome raw request start actor parsed local posted
                (same_eq request.target (codes "/api/start") t))
        | inr f ↦ elim (Bool-cases (same request.target (codes "/api/stop"))) [
          | inl t ↦
              rw (route_post, f, t)
                (mutation_response-Outcome raw request stop actor parsed local posted
                  (same_eq request.target (codes "/api/stop") t))
          | inr g ↦ elim (Bool-cases (same request.target (codes "/internal/recover-stop"))) [
            | inl t ↦
                rw (route_post, f, g, t)
                  (mutation_response-Outcome raw request recover_stop actor parsed local posted
                    (same_eq request.target (codes "/internal/recover-stop") t))
            | inr k ↦ inl (rw (route_post, f, g, k) refl)
          ]
        ]
      ]

  route-Outcome :
      (raw : List ℕ) (request : ParsedRequest) (actor : A)
      → parse_request raw ≡ ok request
      → IsLocal security request
      → Outcome raw actor (route actor_ops json security request actor)
  unfolding route
  route-Outcome raw request actor parsed local = elim (Method-cases request.method) [
    | inl g ↦ rw (route, g) (route_get-Outcome raw request.target actor)
    | inr (inl p) ↦ rw (route, p) (route_post-Outcome raw request actor parsed local p)
    | inr (inr o) ↦ inl (rw (route, o) refl)
  ]

  -- Whatever bytes arrive, the actor is left as it is, or read for its status, or given one mutation
  -- at one revision; the last only for a request that names a loopback host at the service's port and
  -- the same origin, is a POST to the mutation's target with the JSON type and the body that the
  -- mutation asks for, carries the service's token in its header and in its cookie, and states
  -- exactly that revision.
  pub handle-Outcome :
      (raw : List ℕ) (actor : A) → Outcome raw actor (handle actor_ops json security raw actor)
  unfolding handle
  handle-Outcome raw actor = elim (Result-cases (parse_request raw)) [
    | inr (error, p) ↦ inl (rw (handle, p) refl)
    | inl (request, p) ↦ elim (Option-cases (request_refused actor_ops json security request)) [
      | inr (error, e) ↦ inl (rw (handle, p, e) refl)
      | inl e ↦
          rw (handle, p, e) (route-Outcome raw request actor p (request_refused-IsLocal request e))
    ]
  ]
