-- ===== src/Security/Network/Types.antt =====
-- What network.py works with: the parts of a URL, an answer, the hops; and the library and the world
-- outside, which it takes as they are.
use agent_factor.Base.{ℕ, String, Bool, Option, List, Exec}
use agent_factor.Security.Model.{State}
use agent_factor.Security.DataFlow.{EgressReply}

abbrev pub Headers : Type 0
Headers = List (String × String)

-- The parts that `urlsplit` gives. `port` is `none` where reading it raises `ValueError`.
pub record Url : Type 0 where
  pub scheme : String
  pub hostname : Option String
  pub has_userinfo : Bool
  pub port : Option (Option ℕ)
  pub path : String
  pub query : String

-- `ipaddress.ip_address(…)`, with its text.
pub record Address : Type 0 where
  pub text : String
  pub is_global : Bool

-- What a connection is opened for: the name of the host goes into TLS and the header, and the
-- connection to the address.
pub record Upstream : Type 0 where
  pub method : String
  pub scheme : String
  pub host : String
  pub port : ℕ
  pub address : String
  pub target : String
  pub headers : Headers
  pub body : Option String
  pub timeout_seconds : ℕ

-- What is read of a response: at most one byte more than the maximum.
pub record Answer : Type 0 where
  pub status : ℕ
  pub headers : Headers
  pub size : ℕ
  pub text : String

-- The functions of Python's library, and the world outside: what the resolver answers in a round,
-- and what an upstream answers after the connections that were opened before (`none` where an
-- OSError, an SSLError or an HTTPException is raised).
pub record Web : Type 0 where
  pub lower : String → String
  pub urlsplit : String → Option Url
  pub urlunsplit : String → String → String → String → String
  pub urljoin : String → String → Option String
  pub getaddrinfo : ℕ → String → ℕ → Option (List String)
  pub ip_address : String → Option Address
  pub exchange : List Upstream → Upstream → Option Answer
  pub elapsed_ms : ℕ → ℕ

-- The state, and the connections that were opened, the last one first.
pub record Wire : Type 0 where
  pub state : State
  pub sent : List Upstream

pub record Target : Type 0 where
  pub normalized : String
  pub host : String
  pub port : ℕ
  pub address : String
  pub route_id : String

pub record Hop : Type 0 where
  pub url : String
  pub resolved_ip : String
  pub status : ℕ
  pub route_id : String

pub record NetworkReply : Type 0 where
  pub status : ℕ
  pub headers : Headers
  pub body : String
  pub hops : List Hop
  pub data_flow : EgressReply

-- The variables of the loop.
pub record Pending : Type 0 where
  pub url : String
  pub method : String
  pub body : Option String
  pub authorization_host : Option String
  pub hops : List Hop

pub data Progress : Type 0 where
  finished : NetworkReply → Progress
  redirected : Pending → Progress

-- A method that leaves the network alone.
abbrev pub inside : {A : Type 0} → Exec State A → Exec Wire A
inside m w = let (r, s) = m w.state in (r, record w { state = s })
