-- ===== src/Box/Config.antt =====
-- internal/box/executor_config.go. What it uses of net, net/url and the process environment is a
-- parameter.
use tx.Base.{
  Bool, not, ◌&&◌, ◌||◌, Option, none, some, List, [], ◌∷◌, ◌++◌, leb, if◌then◌else◌, Result, ok,
  err, ◌>>=◌, ◌>>◌, refuse_if,
}
use tx.Box.Specs.{ExecutorConfig}
use tx.Decimal.{ℤ, pos, negsuc, parse_int, format_int}
use tx.Dict.{lookup, insert, delete, elem}
use tx.State.{Env}
use tx.Text.Split.{split, join}
use tx.Text.Trim.{trim_space, trim_suffix}
use tx.Text.{Text, codes, is_empty, text_eq}

-- The parts of a url.URL that are read; `printed` is its String() once the path is empty, and
-- `host_ends_in_colon` whether Host ends in ":".
pub record Url : Type 0 where
  pub scheme : Text
  pub hostname : Text
  pub port : Text
  pub path : Text
  pub raw_query : Text
  pub fragment : Text
  pub has_user : Bool
  pub host_ends_in_colon : Bool
  pub printed : Text

-- url.Parse, net.SplitHostPort, net.JoinHostPort, os.Getenv, and net.ParseIP with To4: the text of
-- an address that is an IPv4 address.
pub record Net : Type 0 where
  pub parse_url : Text → Option Url
  pub split_host_port : Text → Option (Text × Text)
  pub join_host_port : Text → Text → Text
  pub parse_ipv4 : Text → Option Text
  pub getenv : Text → Text

pub data ConfigFault : Type 0 where
  not_an_origin more_than_origin bad_url_port no_url_port : ConfigFault
  no_host_port not_ipv4 bad_publish_port dns_not_ipv4 : ConfigFault

pub record ExecutorConfigOverrides : Type 0 where
  pub web_base_url : Text
  pub publish : Text
  pub dns : Text
  pub clear : Bool
  pub ignore_stored : Bool

abbrev pub web_base_url_env : Text
web_base_url_env = codes "TX9_EXECUTOR_WEB_BASE_URL"

abbrev pub publish_env : Text
publish_env = codes "TX9_EXECUTOR_PUBLISH"

abbrev pub dns_env : Text
dns_env = codes "TX9_EXECUTOR_DNS"

-- strconv.Atoi, with the range of a port
unfoldable pub port_number : Option ℤ → Option ℤ
port_number none = none
port_number (some (pos n)) = if leb 1 n && leb n 65535 then some (pos n) else none
port_number (some (negsuc n)) = none

unfoldable pub check_url_port : Url → Option ℤ → Result ConfigFault (Unit {0})
check_url_port u none = err bad_url_port
check_url_port u (some n) = ok tt

unfoldable pub normalized_url : Option Url → Result ConfigFault Text
normalized_url none = err not_an_origin
normalized_url (some u) = do
  refuse_if
      (is_empty u.hostname
        || not (text_eq u.scheme (codes "http") || text_eq u.scheme (codes "https")))
      not_an_origin
  refuse_if
      (u.has_user
        || not (is_empty u.raw_query)
        || not (is_empty u.fragment)
        || not (is_empty u.path || text_eq u.path (codes "/")))
      more_than_origin
  if is_empty u.port
      then refuse_if u.host_ends_in_colon no_url_port
      else check_url_port u (port_number (parse_int u.port))
  ok (trim_suffix u.printed (codes "/"))

unfoldable pub normalize_web_base_url : Net → Text → Result ConfigFault Text
normalize_web_base_url net raw =
    let raw = trim_space raw in if is_empty raw then ok [] else normalized_url (net.parse_url raw)

unfoldable pub publish_port_of : Text → Option ℤ → Result ConfigFault (Text × Text)
publish_port_of ip none = err bad_publish_port
publish_port_of ip (some n) = ok (ip, format_int n)

unfoldable pub publish_ip_of : Option Text → Text → Result ConfigFault (Text × Text)
publish_ip_of none port = err not_ipv4
publish_ip_of (some ip) port = publish_port_of ip (port_number (parse_int port))

unfoldable pub split_publish : Net → Option (Text × Text) → Result ConfigFault (Text × Text)
split_publish net none = err no_host_port
split_publish net (some (host, port)) =
    publish_ip_of (net.parse_ipv4 (if is_empty host then codes "0.0.0.0" else host)) port

unfoldable pub parse_publish_address : Net → Text → Result ConfigFault (Text × Text)
parse_publish_address net raw =
    let raw = trim_space raw in
    if is_empty raw then ok (codes "0.0.0.0", []) else split_publish net (net.split_host_port raw)

-- The loop of parseDNS over the addresses; the resolvers so far are those seen.
unfoldable pub add_resolvers : List Text → List (Option Text) → Result ConfigFault (List Text)
add_resolvers resolvers [] = ok resolvers
add_resolvers resolvers (none ∷ ips) = err dns_not_ipv4
add_resolvers resolvers (some ip ∷ ips) =
    add_resolvers (if elem ip resolvers then resolvers else resolvers ++ ip ∷ []) ips

unfoldable pub parse_ips : Net → List Text → List (Option Text)
parse_ips net [] = []
parse_ips net (v ∷ vs) = net.parse_ipv4 (trim_space v) ∷ parse_ips net vs

unfoldable pub parse_dns : Net → Text → Result ConfigFault (List Text)
parse_dns net raw =
    let raw = trim_space raw in
    if is_empty raw then ok [] else add_resolvers [] (parse_ips net (split b',' raw))

unfoldable pub parse_executor_config : Net → Text → Text → Text → Result ConfigFault ExecutorConfig
parse_executor_config net web_base_url publish dns = do
  base_url ← normalize_web_base_url net web_base_url
  address ← parse_publish_address net publish
  resolvers ← parse_dns net dns
  ok (record {
    web_base_url = base_url;
    publish_ip = address.0;
    publish_port = address.1;
    dns = resolvers;
  })

unfoldable pub first_configured : List Text → Text
first_configured [] = []
first_configured (v ∷ vs) =
    let rest = first_configured vs in if is_empty (trim_space v) then rest else v

-- stored[key]: "" for a missing key.
unfoldable pub stored_value : Text → Env → Text
stored_value key env = elim (lookup key env) [ none ↦ [] | some v ↦ v ]

-- LoadExecutorConfig, on what ReadBoxEnv reads
unfoldable pub load_executor_config :
    Net → Env → ExecutorConfigOverrides → Result ConfigFault ExecutorConfig
load_executor_config net env overrides =
    let stored = if overrides.ignore_stored then [] else env in
    let value = λ (given : Text) (key : Text).
      first_configured (given ∷ net.getenv key ∷ stored_value key stored ∷ []) in
    if overrides.clear
    then parse_executor_config net [] [] []
    else parse_executor_config net (value overrides.web_base_url web_base_url_env)
        (value overrides.publish publish_env) (value overrides.dns dns_env)

unfoldable pub set_or_delete : Env → Text → Text → Env
set_or_delete env key value = if is_empty value then delete key env else insert key value env

unfoldable pub publish_address : Net → ExecutorConfig → Text
publish_address net c =
    if is_empty c.publish_port then [] else net.join_host_port c.publish_ip c.publish_port

-- SaveExecutorConfig, on the contents of the env file
unfoldable pub save_executor_config : Net → Text → ExecutorConfig → Env → Env
save_executor_config net token c env =
    let with_token : Env = insert (codes "EXECUTOR_MCP_TOKEN") token env in
    let with_url = set_or_delete with_token web_base_url_env c.web_base_url in
    let with_publish = set_or_delete with_url publish_env (publish_address net c) in
    set_or_delete with_publish dns_env (join (codes ",") c.dns)
