-- ===== src/Server/Http/Tests.antt =====
-- Runs of the HTTP side of the server on small inputs.
use jsonrpseex.Prelude.{
  ℕ, ◌+◌, ◌≤◌, ◌≡◌, ◌⊎◌, refl, arith, none, [], ◌∷◌, Bool, true, false, length, ite, ℕ_discrete,
  codes,
}
use jsonrpseex.Prelude.Map
use jsonrpseex.Prelude.Map.{Map}
use jsonrpseex.Types.Result.{ok}
use jsonrpseex.Types.Error.{Json}
use jsonrpseex.Server.Rpc.{disabled, handle_rpc_call}
use jsonrpseex.Server.Fixtures.{rt1, reader0, service0}
use jsonrpseex.Server.Http.{HttpRequest, HttpResponse, get, call_with_service}
use jsonrpseex.Server.Http.Answers.{Handled, Refused, call_with_service_lem}
use jsonrpseex.Server.Proxy.{Codec, proxy_call}
use jsonrpseex.Server.Proxy.Stripped.{shown, proxy_call-call_with_service}
use jsonrpseex.Server.Hosts.{Authority, any, fixed, recognize}
use jsonrpseex.Server.Hosts.Allowed.{Allowed, recognize-Allowed}
use jsonrpseex.Server.Tower.{ServerConfig, Server, Reach, start, later, call, tower_call}
use jsonrpseex.Server.Tower.Guard.{Reach-guard}

abbrev request1 : HttpRequest rt1 ℕ
request1 = record {
  method = get;
  path = codes "/health";
  query = none;
  content_type = none;
  content_length = none;
  frames = [];
  extensions = tt;
}

abbrev codec1 : Codec
codec1 = record {
  write_request = λ method. b'{' ∷ method;
  read_result = λ j. none;
  read_error = λ j. none;
  write_error = λ e. [];
}

Json-discrete : Discrete Json
Json-discrete = hlevel ℕ_discrete

abbrev paths1 : Map Json Json
paths1 = record { entries = (codes "/health", codes "system_health") ∷ [] }

abbrev host1 : Authority
host1 = record { host = codes "a"; port = any }

abbrev other1 : Authority
other1 = record { host = codes "a"; port = fixed 80 }

abbrev equal : Json → Json → Bool
equal a b = ite (Json-discrete a b) true false

equal_refl : (a : Json) → equal a a ≡ true
equal_refl a = ground arith

abbrev config1 : ServerConfig
config1 = record {
  enable_ws = true;
  enable_http = true;
  with_manager = false;
  max_request_body_size = 100;
  batch_requests_config = disabled;
}

abbrev switching : HttpResponse rt1
switching = record { status = 101; content_type = "text/plain"; body = []; extensions = tt }

abbrev idle : Server (Unit {0}) (Unit {0}) (HttpRequest rt1 ℕ)
idle = record { available = 2; registry = Map.empty; sessions = []; requests = []; app = tt }

abbrev upgraded1 : Server (Unit {0}) (Unit {0}) (HttpRequest rt1 ℕ)
upgraded1 =
    (tower_call rt1 reader0 service0 (λ n l. l) config1 5 tt true (ok switching) request1 idle).1

-- A session runs, and a request is handled beside it.
abbrev busy : Server (Unit {0}) (Unit {0}) (HttpRequest rt1 ℕ)
busy =
    (tower_call rt1 reader0 service0 (λ n l. l) config1 6 tt false (ok switching) request1
      upgraded1).1

reach_busy : Reach rt1 {E = ℕ} reader0 service0 (λ n l. l) config1 2 busy
reach_busy =
    later (later (start tt) (call 5 tt true (ok switching) request1 idle))
      (call 6 tt false (ok switching) request1 upgraded1)

busy_run : busy.available ≡ 0
unfolding tower_call
busy_run = refl

call_with_service_lem_example :
    Handled rt1 reader0 service0 disabled (λ n l. l) 100 request1 tt
    ⊎ Refused rt1 reader0 service0 disabled (λ n l. l) 100 request1 tt
call_with_service_lem_example =
    call_with_service_lem rt1 reader0 service0 disabled (λ n l. l) 100 request1 tt

proxy_call-call_with_service_example :
    let (rp, st') =
      handle_rpc_call rt1 reader0 service0
        (codec1.write_request (codes "system_health"))
        true
        disabled
        tt
        tt in
    let (r, after) =
      proxy_call rt1 codec1 Json-discrete
        (call_with_service rt1 reader0 service0 disabled (λ n l. l) 100)
        paths1
        request1
        tt in
    (after ≡ st')
    × (r.status
        ≡ (shown rt1 codec1 Json-discrete {E = ℕ} {St = Unit {0}} reader0 service0 disabled
            (λ n l. l)
            100
            rp.json).0)
    × (r.body
        ≡ (shown rt1 codec1 Json-discrete {E = ℕ} {St = Unit {0}} reader0 service0 disabled
            (λ n l. l)
            100
            rp.json).1)
unfolding Map.get Map.lookup Json-discrete ℕ_discrete
proxy_call-call_with_service_example =
    proxy_call-call_with_service rt1 codec1 Json-discrete reader0 service0 disabled (λ n l. l) 100
      paths1 request1 tt (codes "system_health") (codes "system_health") refl refl refl refl refl

recognize-Allowed_example : Allowed Json-discrete equal (host1 ∷ []) other1
unfolding Json-discrete Map.get Map.lookup recognize Map.insert ℕ_discrete
recognize-Allowed_example =
    recognize-Allowed Json-discrete equal (λ m host. Map.get Json-discrete m host) (host1 ∷ [])
      other1 (λ m host ports e. (host, equal_refl host, e)) refl

Reach-guard_example :
    (busy.available + (length busy.sessions + length busy.requests) ≡ 2)
    × (length busy.sessions + length busy.requests ≤ 2)
Reach-guard_example = Reach-guard rt1 reader0 service0 (λ n l. l) config1 reach_busy
