-- ===== src/Tests/WebTests.antt =====
-- Tests of rust/src/jbl_gatt.rs, and of rust/src/web.rs over the controller.
use jbl_aura_play_together.Base.{
  ℕ, ◌-◌, ◌≤◌, ◌≡◌, ◌⊎◌, refl, arith, true, false, none, some, List, [], ◌∷◌, ◌++◌, length, codes,
  same, if◌then◌else◌, ok, is_ok,
}
use mathlib.Core.Path.{subst}
use jbl_aura_play_together.Control.{BroadcastCommand, pl_frame}
use jbl_aura_play_together.Att.{
  sent, Received, packet, receive_failed, pending, SeqPacket, le_bytes,
}
use jbl_aura_play_together.Aura.Scan.{br_edr}
use jbl_aura_play_together.Aura.Acquire.{Bluer}
use jbl_aura_play_together.Gatt.{JblBearer, jbl_value_handle, execute}
use jbl_aura_play_together.Gatt.Traffic.{Traffic, watch, quiet, acknowledges, execute_traffic}
use jbl_aura_play_together.Controller.Types.{ControllerAction}
use jbl_aura_play_together.Controller.State.{PairController}
use jbl_aura_play_together.Controller.{mutate, status}
use jbl_aura_play_together.Web.Request.{parse_request, ParsedRequest, get_method, post_method}
use jbl_aura_play_together.Web.Framing.{request_frame, complete}
use jbl_aura_play_together.Web.Framing.Agrees.{request_frame-parse_request}
use jbl_aura_play_together.Controller.Session.{act}
use jbl_aura_play_together.Web.Handle.{Json, WebSecurity, start, handle}
use jbl_aura_play_together.Web.Handle.Guards.{Admitted}
use jbl_aura_play_together.Web.Actor.{
  controller_web_actor, Served, handle-Served, replay_takes_no_action, Arrival, received, requested,
  serve_arrivals,
}
use jbl_aura_play_together.Backend.{PairBackend}
use jbl_aura_play_together.Journal.{UncertaintyJournal}
use jbl_aura_play_together.Journal.File.Open.{Scheduled, file_journal}
use jbl_aura_play_together.Native.Actions.{native_backend}
use jbl_aura_play_together.Controller.{with_journal}
use jbl_aura_play_together.Web.Text.{parse_below}
use jbl_aura_play_together.Web.Authority.{
  localhost, parse_name, parse_port, parse_strong_revision, origin_is_same, csrf_cookie_value,
  parse,
}
use jbl_aura_play_together.Web.Handle.{body_matches, expected_revision}
use jbl_aura_play_together.Tests.Fixtures.{
  Peer, Core, jbl, aura, observer, core, euid, good_io, clean_journal, probe,
}

some-injective : {A : Type 0} {a b : A} → some a ≡ some b → a ≡ b
some-injective e = cc

abbrev crlf : List ℕ
crlf = 13 ∷ 10 ∷ []

abbrev request : List ℕ
request = codes "GET /healthz HTTP/1.1" ++ crlf ++ codes "Host: localhost" ++ crlf ++ crlf

abbrev parsed : ParsedRequest
parsed = record {
  method = get_method;
  target = codes "/healthz";
  headers = (codes "host", codes "localhost") ∷ [];
  body = [];
  content_length = none;
}

parses : parse_request request ≡ ok parsed
unfolding parse_request
parses = refl

request_frame-parse_request_example : request_frame request ≡ complete
request_frame-parse_request_example = request_frame-parse_request request parsed parses

-- A start, as the page sends it.
abbrev head_lines : List ℕ
head_lines =
    codes "POST /api/start HTTP/1.1"
    ++ crlf
    ++ codes "Host: localhost:8096"
    ++ crlf
    ++ codes "Origin: http://localhost:8096"
    ++ crlf
    ++ codes "Content-Type: application/json"
    ++ crlf
    ++ codes "Content-Length: 2"
    ++ crlf
    ++ codes "X-CSRF-Token: 00ff"
    ++ crlf
    ++ codes "Cookie: jbl_aura_csrf=00ff"
    ++ crlf
    ++ codes "If-Match: \"0\""
    ++ crlf

abbrev start_request : List ℕ
start_request = head_lines ++ crlf ++ codes "{}"

abbrev start_parsed : ParsedRequest
start_parsed = record {
  method = post_method;
  target = codes "/api/start";
  headers =
      (codes "if-match", codes "\"0\"")
      ∷ (codes "cookie", codes "jbl_aura_csrf=00ff")
      ∷ (codes "x-csrf-token", codes "00ff")
      ∷ (codes "content-length", codes "2")
      ∷ (codes "content-type", codes "application/json")
      ∷ (codes "origin", codes "http://localhost:8096")
      ∷ (codes "host", codes "localhost:8096")
      ∷ [];
  body = codes "{}";
  content_length = some 2;
}

start_parses : parse_request start_request ≡ ok start_parsed
unfolding parse_request parse_below
start_parses = refl

start_frames : request_frame start_request ≡ complete
start_frames = request_frame-parse_request start_request start_parsed start_parses

-- A JSON library that knows the empty object.
abbrev json : Json (Unit {0}) (Unit {0})
json = record {
  from_slice = λ bytes. if same bytes (codes "{}") then some tt else none;
  as_object = λ v. some v;
  len = λ o. 0;
  get = λ key o. none;
  as_str = λ v. none;
}

abbrev security : WebSecurity
security = record { port = 8096; csrf_token = codes "00ff" }

abbrev good : PairBackend Core
good = native_backend jbl aura observer

abbrev file_ops : UncertaintyJournal Scheduled
file_ops = file_journal euid good_io

controller : PairController Core Peer Scheduled
unfolding with_journal core file_journal
controller = with_journal file_ops core tt clean_journal

Admitted-start : Admitted json security start_request start 0
unfolding parse parse_name parse_port parse_below origin_is_same csrf_cookie_value body_matches
    expected_revision parse_strong_revision
Admitted-start = record {
  request = start_parsed;
  parsed = start_parses;
  posted = refl;
  target = refl;
  local = record {
    host = codes "localhost:8096";
    host_header = refl;
    authority = record { host = localhost; effective_port = 8096 };
    loopback = refl;
    same_origin = λ origin h.
        subst (λ o. origin_is_same o (record { host = localhost; effective_port = 8096 }) ≡ true)
          (some-injective h) refl;
  };
  origin = refl;
  json_type = refl;
  body = refl;
  token = record {
    header = refl;
    cookie = codes "jbl_aura_csrf=00ff";
    cookie_header = refl;
    cookie_token = refl;
  };
  expected = refl;
}

handle-Served_example :
    Served good probe file_ops json security 5 start_request controller
      (handle (controller_web_actor good probe file_ops 5) json security start_request controller).1
handle-Served_example = handle-Served good probe file_ops json security 5 start_request controller

-- Between the two, a status page is read and the pair is stopped.
abbrev between : List Arrival
between = received request 6 ∷ requested (act ControllerAction.stop 7) ∷ []

replay_takes_no_action_example :
    (let d =
        serve_arrivals good probe file_ops json security
          (mutate good probe file_ops controller ControllerAction.start 5).1
          between in
      let e =
        (handle (controller_web_actor good probe file_ops 9) json security start_request d).1 in
      (e ≡ d) ⊎ (e ≡ (status good probe d 9).1))
replay_takes_no_action_example =
    replay_takes_no_action good probe file_ops json security 5 9 start_request controller start
      between (unfold controller in omega arith) (unfold controller in Admitted-start)

-- A socket that passes a notification and then the write response.
abbrev Script : Type 0
Script = List (List ℕ)

abbrev next : Script → Received × Script
next [] = (receive_failed, [])
next (bytes ∷ script) = (packet bytes, script)

abbrev sockets : SeqPacket (Unit {0}) Script
sockets = record {
  send = λ k bytes w. (sent (length bytes), w);
  recv = λ k w. next w;
  recv_now_or_never = λ k w. (pending, w);
}

abbrev bearer : JblBearer (Unit {0})
bearer = record { socket = tt; mtu = 500 }

abbrev script : Script
script = (0x1b ∷ 0x2a ∷ 0x00 ∷ []) ∷ (0x13 ∷ []) ∷ []

abbrev jbl_bluer : Bluer (Unit {0}) (Traffic Script)
jbl_bluer = record {
  session = λ w. (some tt, w);
  adapter = λ w. (some tt, w);
  is_powered = λ w. (some true, w);
  adapter_address = λ w. (some [], w);
  device = λ a w. (some tt, w);
  address_type = λ a w. (some br_edr, w);
  is_paired = λ a w. (some true, w);
  is_trusted = λ a w. (some true, w);
  is_blocked = λ a w. (some false, w);
  set_discovery_filter = λ w. (some tt, w);
  device_addresses = λ w. (some [], w);
  scan = λ known w. (record { subscribes = λ a. false; discovers = true; events = [] }, w);
  new_seq_packet = λ w. (some tt, w);
  bind = λ k a w. (some tt, w);
  set_security_low = λ k w. (some tt, w);
  connect = λ k a w. (some tt, w);
  peer_addr_is = λ k a w. (some true, w);
  deadline_passed = λ w. (false, w);
  sleep = λ w. w;
}

execute_traffic_example :
    (f : List ℕ) × (pl_frame BroadcastCommand.stop ≡ some f)
    × (let (result, t) =
          execute jbl_bluer
            (watch sockets)
            BroadcastCommand.stop
            (record { bearer = some bearer; world = quiet script }) in
        (t.bearer ≡ none)
        × (length t.world.sends ≤ 1)
        × (length t.world.reads ≤ 32)
        × ((is_ok result ≡ false)
            ⊎ ((t.world.sends ≡ (0x12 ∷ le_bytes jbl_value_handle f) ∷ [])
                × (length f ≤ bearer.mtu - 3)
                × (acknowledges t.world.reads ≡ true))))
execute_traffic_example = execute_traffic sockets jbl_bluer bearer BroadcastCommand.stop script
