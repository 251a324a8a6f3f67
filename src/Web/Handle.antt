-- ===== src/Web/Handle.antt =====
-- The request handler of rust/src/web.rs, over the one actor that it calls. A response is what it
-- says; its bytes and its headers are left out.
pub mod Token
pub mod Guards
use jbl_aura_play_together.Base.{
  ℕ, Bool, true, false, not, ◌&&◌, ◌||◌, ltb, ◌==◌, Option, none, some, List, [], ◌∷◌, length,
  codes, same, Result, ok, err, if◌then◌else◌,
}
use jbl_aura_play_together.Controller.Types.{ControllerStatus, ControllerActionResult}
use jbl_aura_play_together.Web.Request.{
  Method, get_method, post_method, other_method, RequestError, ParsedRequest, single_header,
  max_body_bytes, parse_request,
}
use jbl_aura_play_together.Web.Authority.{
  LoopbackAuthority, parse, origin_is_same, csrf_cookie_value, constant_time_eq,
  parse_strong_revision,
}

pub data WebMutation : Type 0 where
  start stop recover_stop : WebMutation

-- The trait `WebActor`; the error is `RevisionConflict`.
pub record WebActor (A : Type 0) : Type 0 where
  pub status : A → ControllerStatus × A
  pub mutate_if_revision : ℕ → WebMutation → A → Result ControllerActionResult (Unit {0}) × A

-- `serde_json`, as far as a body is read with it.
pub record Json (V O : Type 0) : Type 0 where
  pub from_slice : List ℕ → Option V
  pub as_object : V → Option O
  pub len : O → ℕ
  pub get : List ℕ → O → Option V
  pub as_str : V → Option (List ℕ)

pub data MutationBody : Type 0 where
  empty_object recover_stop_confirmation : MutationBody

-- `WebSecurity`, of which the handler reads the port and the token in hexadecimal digits.
pub record WebSecurity : Type 0 where
  pub port : ℕ
  pub csrf_token : List ℕ

pub data HttpResponse : Type 0 where
  page readiness : HttpResponse
  status_response : ControllerStatus → HttpResponse
  action_response : ControllerActionResult → HttpResponse
  error_response : RequestError → HttpResponse

abbrev pub error_status : RequestError → ℕ
error_status RequestError.bad_request = 400
error_status RequestError.invalid_json_body = 400
error_status RequestError.forbidden_host = 403
error_status RequestError.forbidden_origin = 403
error_status RequestError.csrf_rejected = 403
error_status RequestError.not_found = 404
error_status RequestError.method_not_allowed = 405
error_status RequestError.revision_conflict = 409
error_status RequestError.length_required = 411
error_status RequestError.payload_too_large = 413
error_status RequestError.unsupported_media_type = 415
error_status RequestError.precondition_required = 428
error_status RequestError.http_version_not_supported = 505

abbrev pub is_text : Option (List ℕ) → List ℕ → Bool
is_text none text = false
is_text (some t) text = same t text

abbrev pub is_some : {A : Type 0} → Option A → Bool
is_some none = false
is_some (some a) = true

module _ {V O : Type 0} (json : Json V O) where
  abbrev pub object_matches : MutationBody → O → Bool
  object_matches empty_object object = json.len object == 0
  object_matches recover_stop_confirmation object =
      json.len object == 1 && elim (json.get (codes "confirm") object) as (λ _. Bool) [
        | none ↦ false
        | some value ↦ is_text (json.as_str value) (codes "recover-stop")
      ]

  -- `MutationBody::matches`.
  unfoldable pub body_matches : MutationBody → List ℕ → Bool
  body_matches rule body = elim (json.from_slice body) as (λ _. Bool) [
    | none ↦ false
    | some value ↦ elim (json.as_object value) as (λ _. Bool) [
      | none ↦ false
      | some object ↦ object_matches rule object
    ]
  ]

unfoldable pub valid_csrf : WebSecurity → ParsedRequest → Bool
unfolding csrf_cookie_value constant_time_eq
valid_csrf security request = elim (single_header (codes "x-csrf-token") request) as (λ _. Bool) [
  | none ↦ false
  | some header_token ↦ elim (single_header (codes "cookie") request) as (λ _. Bool) [
    | none ↦ false
    | some cookie_header ↦ elim (csrf_cookie_value cookie_header) as (λ _. Bool) [
      | none ↦ false
      | some cookie_token ↦
          constant_time_eq header_token cookie_token
          && constant_time_eq header_token security.csrf_token
          && constant_time_eq cookie_token security.csrf_token
    ]
  ]
]

unfoldable pub expected_revision : ParsedRequest → Option ℕ
unfolding parse_strong_revision
expected_revision request = elim (single_header (codes "if-match") request) as (λ _. Option ℕ) [
  | none ↦ none
  | some value ↦ parse_strong_revision value
]

module _ {A V O : Type 0} (actor_ops : WebActor A) (json : Json V O) (security : WebSecurity) where
  -- The call of the actor.
  unfoldable pub apply_mutation : WebMutation → ℕ → A → HttpResponse × A
  apply_mutation mutation revision actor =
      let (result, actor1) = actor_ops.mutate_if_revision revision mutation actor in
      (
        elim result as (λ _. HttpResponse) [
          | ok action ↦ action_response action
          | err conflict ↦ error_response RequestError.revision_conflict
        ],
        actor1,
      )

  -- The error that `mutation_response` finds before it reads the revision.
  unfoldable pub mutation_refused : ParsedRequest → MutationBody → Option RequestError
  unfolding body_matches valid_csrf
  mutation_refused request rule =
      if not (is_some (single_header (codes "origin") request))
      then some RequestError.forbidden_origin
      else if not
          (is_text (single_header (codes "content-type") request) (codes "application/json"))
      then some RequestError.unsupported_media_type
      else elim request.content_length as (λ _. Option RequestError) [
        | none ↦ some RequestError.length_required
        | some length ↦
            if ltb max_body_bytes length
            then some RequestError.payload_too_large
            else if not (body_matches json rule request.body)
            then some RequestError.invalid_json_body
            else if not (valid_csrf security request)
            then some RequestError.csrf_rejected
            else none
      ]

  unfoldable pub mutation_response :
      ParsedRequest → WebMutation → MutationBody → A → HttpResponse × A
  unfolding mutation_refused expected_revision apply_mutation
  mutation_response request mutation rule actor =
      elim (mutation_refused request rule) as (λ _. HttpResponse × A) [
        | some error ↦ (error_response error, actor)
        | none ↦ elim (expected_revision request) as (λ _. HttpResponse × A) [
          | none ↦ (error_response RequestError.precondition_required, actor)
          | some revision ↦ apply_mutation mutation revision actor
        ]
      ]

  unfoldable pub route_get : List ℕ → A → HttpResponse × A
  route_get target actor =
      let (status, actor1) = actor_ops.status actor in
      if same target (codes "/")
      then (page, actor)
      else if same target (codes "/api/status")
      then (status_response status, actor1)
      else if same target (codes "/healthz")
      then (readiness, actor)
      else (error_response RequestError.not_found, actor)

  unfoldable pub route_post : ParsedRequest → A → HttpResponse × A
  unfolding mutation_response
  route_post request actor =
      if same request.target (codes "/api/start")
      then mutation_response request start empty_object actor
      else if same request.target (codes "/api/stop")
      then mutation_response request stop empty_object actor
      else if same request.target (codes "/internal/recover-stop")
      then mutation_response request recover_stop recover_stop_confirmation actor
      else (error_response RequestError.not_found, actor)

  unfoldable pub route : ParsedRequest → A → HttpResponse × A
  unfolding route_get route_post
  route request actor = elim request.method as (λ _. HttpResponse × A) [
    | get_method ↦ route_get request.target actor
    | post_method ↦ route_post request actor
    | other_method ↦ (error_response RequestError.method_not_allowed, actor)
  ]

  -- The error that `handle` finds in the host and the origin.
  unfoldable pub request_refused : ParsedRequest → Option RequestError
  unfolding parse origin_is_same
  request_refused request =
      elim (single_header (codes "host") request) as (λ _. Option RequestError) [
        | none ↦ some RequestError.forbidden_host
        | some value ↦ elim (parse value security.port) as (λ _. Option RequestError) [
          | none ↦ some RequestError.forbidden_host
          | some host ↦
              elim (single_header (codes "origin") request) as (λ _. Option RequestError) [
                | none ↦ none
                | some origin ↦
                    if origin_is_same origin host then none else some RequestError.forbidden_origin
              ]
        ]
      ]

  -- `WebApp::handle`.
  unfoldable pub handle : List ℕ → A → HttpResponse × A
  unfolding parse_request request_refused route
  handle raw actor = elim (parse_request raw) as (λ _. HttpResponse × A) [
    | err error ↦ (error_response error, actor)
    | ok request ↦ elim (request_refused request) as (λ _. HttpResponse × A) [
      | some error ↦ (error_response error, actor)
      | none ↦ route request actor
    ]
  ]
