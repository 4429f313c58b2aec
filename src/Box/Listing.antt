-- ===== src/Box/Listing.antt =====
-- List, Get, Exists and Token of internal/box/box.go.
use tx.Base.{Bool, true, false, Option, none, some, List, [], ◌∷◌, if◌then◌else◌, Result, ok, err}
use tx.Box.Objects.{list_or_fail}
use tx.Box.{Box, Fault, box_not_found, no_token, engine_failed}
use tx.Dict.{Dict, lookup, insert, keys}
use tx.Docker.Exec.{Exec, lift, ◌>>=◌, list_box_containers, read_box_env}
use tx.Docker.{
  Engine, Reply, done, not_found, failed, Labels, Summary, label_box, label_version, label_role,
  label_executor_web_base_url, role_agent, role_executor,
}
use tx.Mounts.Prepare.{sort_texts}
use tx.Text.{Text, codes, is_empty, text_eq}

-- A missing label reads as the empty text.
unfoldable pub label_of : Text → Labels → Text
label_of key labels = elim (lookup key labels) [ none ↦ [] | some v ↦ v ]

abbrev blank_box : Text → Box
blank_box name = record {
  name = name;
  agent_id = [];
  executor_id = [];
  agent_state = [];
  executor_state = [];
  executor_web_base_url = [];
  version = [];
}

unfoldable pub box_or_blank : Option Box → Text → Box
box_or_blank none name = blank_box name
box_or_blank (some b) name = b

-- What an entry says of its box.
unfoldable pub with_container : Box → Summary → Box
with_container b c =
    let role = label_of label_role c.labels in
    let v = label_of label_version c.labels in
    let version = if is_empty v then b.version else v in
    if text_eq role role_agent
    then record {
      name = b.name;
      agent_id = c.id;
      executor_id = b.executor_id;
      agent_state = c.state;
      executor_state = b.executor_state;
      executor_web_base_url = b.executor_web_base_url;
      version = version;
    }
    else if text_eq role role_executor
    then record {
      name = b.name;
      agent_id = b.agent_id;
      executor_id = c.id;
      agent_state = b.agent_state;
      executor_state = c.state;
      executor_web_base_url = label_of label_executor_web_base_url c.labels;
      version = version;
    }
    else record {
      name = b.name;
      agent_id = b.agent_id;
      executor_id = b.executor_id;
      agent_state = b.agent_state;
      executor_state = b.executor_state;
      executor_web_base_url = b.executor_web_base_url;
      version = version;
    }

-- byName, with `order` for its keys
unfoldable pub add_containers : Dict Box → List Summary → Dict Box
add_containers by_name [] = by_name
add_containers by_name (c ∷ cs) =
    let name = label_of label_box c.labels in
    add_containers
      (if is_empty name
        then by_name
        else insert name (with_container (box_or_blank (lookup name by_name) name) c) by_name)
      cs

unfoldable pub in_order : Dict Box → List Text → List Box
in_order by_name [] = []
in_order by_name (name ∷ names) = box_or_blank (lookup name by_name) name ∷ in_order by_name names

unfoldable pub boxes_of : List Summary → List Box
boxes_of containers =
    let by_name = add_containers [] containers in in_order by_name (sort_texts (keys by_name))

unfoldable pub find_box : Text → List Box → Result Fault Box
find_box name [] = err box_not_found
find_box name (b ∷ bs) = let rest = find_box name bs in if text_eq b.name name then ok b else rest

unfoldable pub found : Result Fault Box → Result Fault Bool
found (ok b) = ok true
found (err box_not_found) = ok false
found (err e) = err e

-- Token, of the reply to the reading of the env file; a missing key reads as the empty text.
unfoldable pub token_of : Reply (Dict Text) → Result Fault Text
token_of (done env) =
    let token = label_of (codes "EXECUTOR_MCP_TOKEN") env in
    if is_empty token then err no_token else ok token
token_of not_found = err engine_failed
token_of failed = err engine_failed

module _ (engine : Engine) where
  unfoldable pub token : Text → Exec engine Fault Text
  token name = do reply ← read_box_env engine name; lift (token_of reply)

  unfoldable pub list : Exec engine Fault (List Box)
  list = do
    reply ← list_box_containers engine
    containers ← lift (list_or_fail reply)
    lift (ok (boxes_of containers))

  unfoldable pub get : Text → Exec engine Fault Box
  get name = do boxes ← list; lift (find_box name boxes)

  unfoldable pub exists : Text → Exec engine Fault Bool
  exists name w = let (r, w') = get name w in (found r, w')
